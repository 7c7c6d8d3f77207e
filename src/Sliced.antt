-- ===== src/Sliced.antt =====
-- src/dom_parallel.h, `run_sliced`: the slicing rule with a parser of the caller's choice in every
-- slice.
pub mod Pieces
pub mod Ranges
pub mod Serial
use jsonstreambench.Prelude.{
  ℕ, ◌+◌, ◌-◌, ◌*◌, ◌/◌, ◌%◌, Bool, List, [], ◌∷◌, Bytes, if◌then◌else◌, leb, ◌==◌, window, u64_mod,
}
use jsonstreambench.Extraction.{Extraction, no_extraction, merge}
use jsonstreambench.Slicing.{snap_to_newline}
use jsonstreambench.Pool.{Worker, Pool, Job, run, spawn}

-- `total.merge(s)` for every shard, in the order of the threads.
unfoldable pub merge_shards : List (Worker Extraction) → Extraction → Extraction
merge_shards [] total = total
merge_shards (w ∷ ws) total = merge_shards ws (merge total w.shard)

-- `if (threads == 0) { threads = 1; }`.
abbrev pub thread_count : ℕ → ℕ
thread_count threads = if threads == 0 then 1 else threads

-- `if (slice_bytes == 0) { slice_bytes = 256 * 1024; }`.
abbrev pub slice_size : ℕ → ℕ
slice_size slice_bytes = if slice_bytes == 0 then 256 * 1024 else slice_bytes

-- `(length + slice_bytes - 1) / slice_bytes` in `size_t`.
unfoldable pub slice_count : ℕ → ℕ → ℕ
slice_count length slice_bytes = (length + slice_bytes + (u64_mod - 1)) % u64_mod / slice_bytes

module _ (data_ : Bytes) (length slice_bytes : ℕ)
    (parse_slice : Bytes → Extraction → Extraction) where
  -- The loop's body behind a claim: an empty slice is not parsed.
  unfoldable pub parse_claim : ℕ → Extraction → Extraction
  parse_claim raw mine =
      let begin = if raw == 0 then 0 else snap_to_newline data_ length raw in
      let end = snap_to_newline data_ length ((raw + slice_bytes) % u64_mod) in
      if leb end begin then mine else parse_slice (window data_ begin (end - begin)) mine

  abbrev pub sliced_job : Bool → Job Extraction
  sliced_job static = record {
    static = static;
    unit = slice_bytes;
    stop = λ raw. leb length raw;
    work = parse_claim;
  }

-- The state of the workers behind an interleaving `sched`.
unfoldable pub sliced_pool :
    Bytes → ℕ → ℕ → ℕ → (Bytes → Extraction → Extraction) → Bool → List ℕ → Pool Extraction
sliced_pool data_ length threads slice_bytes parse_slice static sched =
    let size = slice_size slice_bytes in
    run (sliced_job data_ length size parse_slice static) sched
      (spawn no_extraction (slice_count length size) (thread_count threads))

-- The result, once the threads are joined.
unfoldable pub run_sliced :
    Bytes → ℕ → ℕ → ℕ → (Bytes → Extraction → Extraction) → Bool → List ℕ → Extraction
unfolding sliced_pool merge_shards
run_sliced data_ length threads slice_bytes parse_slice static sched =
    merge_shards (sliced_pool data_ length threads slice_bytes parse_slice static sched).workers
      no_extraction
