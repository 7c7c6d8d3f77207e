-- ===== src/DomWorker/Agree.antt =====
-- The parallel run of a library beside its serial run.
use jsonstreambench.Prelude.{
  ℕ, ◌≤◌, ◌≡◌, sym, List, inl, inr, Bool, true, Bytes, length, Option-cases,
}
use jsonstreambench.Extraction.{no_extraction}
use jsonstreambench.Extraction.Sum.{Adds, id-Adds, canonical-Adds, Adds-ext}
use jsonstreambench.QueryId.{QueryId}
use jsonstreambench.DomQueries.{Traits, run_query}
use jsonstreambench.DomQueries.Paths.{query_paths, select_all, run_query-select_all}
use jsonstreambench.Pool.{all_done}
use jsonstreambench.Sliced.{thread_count, slice_size, sliced_pool}
use jsonstreambench.Sliced.Pieces.{visit-Adds, Fits}
use jsonstreambench.Sliced.Serial.{run_sliced-for_each_line}
use jsonstreambench.DomWorker.{Parser, handle_line, work, worker_serial, worker_parallel}

-- Feeding a node adds to the sums of the sink, whatever they are.
abbrev pub IsAdditive : Traits → Type 0
IsAdditive t =
    (v : t.Node) → Adds (t.feed v) (t.feed v no_extraction).sum (t.feed v no_extraction).matches

module _ (lib : Parser) (additive : IsAdditive lib.traits) (q : QueryId) where
  run_query-Adds :
      (root : lib.traits.Node)
      → Adds
          (run_query lib.traits q root)
          (run_query lib.traits q root no_extraction).sum
          (run_query lib.traits q root no_extraction).matches
  run_query-Adds root = canonical-Adds (
      Adds-ext (λ out. sym (run_query-select_all lib.traits q root out))
        (visit-Adds lib.traits.feed (λ v. (lib.traits.feed v no_extraction).sum)
          (λ v. (lib.traits.feed v no_extraction).matches) additive
          (select_all lib.traits (query_paths q) root)))

  line_sum : Bytes → ℕ
  line_sum line = (handle_line lib q line no_extraction).sum

  line_matches : Bytes → ℕ
  line_matches line = (handle_line lib q line no_extraction).matches

  line-Adds : (line : Bytes) → (s : ℕ) × (m : ℕ) × Adds (handle_line lib q line) s m
  unfolding handle_line
  line-Adds line = elim (Option-cases (lib.parse line)) [
    | inl bad ↦ rw (bad, handle_line) (0, 0, id-Adds)
    | inr (root, good) ↦ rw (good, handle_line) (_, _, run_query-Adds root)
  ]

  handle_line-Adds :
      (line : Bytes) → Adds (handle_line lib q line) (line_sum line) (line_matches line)
  unfolding line_sum line_matches
  handle_line-Adds line = canonical-Adds (line-Adds line).2

  -- The slicing rule carries any library: in every interleaving the joined threads give what one
  -- worker gives on the whole input.
  pub worker_parallel-worker_serial :
      (data_ : Bytes) (size threads slice_bytes : ℕ) (static : Bool) (sched : List ℕ)
      → size ≤ length data_
      → Fits size (slice_size slice_bytes) (thread_count threads)
      → all_done
          (sliced_pool data_ size threads slice_bytes
            (λ d. work lib q d (length d))
            static
            sched).workers
        ≡ true
      → worker_parallel lib data_ size q threads slice_bytes static sched
        ≡ worker_serial lib data_ size q
  unfolding worker_parallel worker_serial work
  worker_parallel-worker_serial data_ size threads slice_bytes static sched within fits d =
      run_sliced-for_each_line data_ size threads slice_bytes (handle_line lib q) line_sum
        line_matches static sched within fits handle_line-Adds d
