-- ===== src/Pison/Agree.antt =====
-- src/pison_engine.cpp: `run_stream` with one thread and with several.
use Prim.Native.Nat.{min}
use jsonstreambench.Prelude.{
  ℕ, zero, suc, ◌+◌, ◌-◌, ◌*◌, ◌/◌, ◌%◌, ◌≤◌, ◌<◌, ◌≡◌, refl, ap, ◌∙◌, sym, List, true, false, none,
  arith, Bytes, if◌then◌else◌, ltb, leb, length, u64_mod,
}
use jsonstreambench.Extraction.{Extraction, no_extraction}
use jsonstreambench.Extraction.Sum.{Adds}
use jsonstreambench.QueryId.{QueryId}
use jsonstreambench.Pool.{all_done}
use jsonstreambench.Pool.Total.{total, range, range_snoc, range_split}
use jsonstreambench.Pool.Dynamic.{Counts, Ends}
use jsonstreambench.Pool.Finish.{dynamic_total}
use jsonstreambench.Sliced.{merge_shards}
use jsonstreambench.Sliced.Serial.{merge_shards-Adds, extraction_eq, empty-IsWord}
use jsonstreambench.Loaders.{RecordTable}
use jsonstreambench.Pison.{Workload}
use jsonstreambench.Pison.Stream.{
  PisonApi, records_from, run_chunk, stream_job, stream_workers, run_stream,
}
use jsonstreambench.Pison.Additive.{sum_at, matches_at, records_from-Adds}

module _ (api : PisonApi) (text : Bytes) (table : RecordTable) (q : QueryId) (w : Workload)
    (levels : ℕ) where
  abbrev n : ℕ
  n = length table.offset

  -- How many records the claim at `begin` covers, and how many claims there are.
  chunk_len : ℕ → ℕ
  chunk_len begin =
      let behind = (begin + 64) % u64_mod in (if ltb behind n then behind else n) - begin

  abbrev claims : ℕ
  claims = (n + 63) / 64

  run_chunk-Adds :
      (begin : ℕ)
      → Adds
          (run_chunk api text table q w levels begin)
          (range (sum_at api text table q w levels) begin (chunk_len begin))
          (range (matches_at api text table q w levels) begin (chunk_len begin))
  unfolding run_chunk chunk_len
  run_chunk-Adds begin = records_from-Adds api text table q w levels begin (chunk_len begin)

  module _ (threads : ℕ) (some_threads : 1 < threads)
      (room : (claims + threads) * 64 < u64_mod) where
    -- The claims in front of the claim `k` cover the records in front of it.
    range-claims :
        (f : ℕ → ℕ) (k : ℕ)
        → k ≤ claims
        → range (λ j. range f (j * 64) (chunk_len (j * 64))) 0 k ≡ range f 0 (min (k * 64) n)
    range-claims f zero h = unfold range in let z : min (0 * 64) n ≡ 0 = omega arith in rw z refl
    range-claims f (suc k) h =
        let c = λ (j : ℕ). range f (j * 64) (chunk_len (j * 64)) in
        let before : k * 64 < n = omega arith in
        let here : min (k * 64) n ≡ k * 64 = omega arith in
        let len : k * 64 + chunk_len (k * 64) ≡ min (suc k * 64) n =
          unfold chunk_len in ground (arith, room) in
        let zero_ : 0 + k ≡ k = omega arith in
        let zero__ : 0 + k * 64 ≡ k * 64 = omega arith in
        range_snoc c 0 k
        ∙ ap (λ t. t + c (0 + k)) (range-claims f k (omega arith) ∙ ap (range f 0) here)
        ∙ ap (λ t. range f 0 (k * 64) + c t) zero_
        ∙ ap (λ t. range f 0 (k * 64) + range f t (chunk_len (k * 64))) (sym zero__)
        ∙ sym (range_split f 0 (k * 64) (chunk_len (k * 64)))
        ∙ ap (range f 0) len

    job_Ends : Ends (stream_job api text table q w levels) claims threads
    job_Ends = record { goes = λ k h. ground arith; stops = λ k h few. ground arith }

    counter :
        (g : Extraction → ℕ) (f : ℕ → ℕ) (sched : List ℕ)
        → Counts (stream_job api text table q w levels) g (λ b. range f b (chunk_len b))
        → g no_extraction ≡ 0
        → all_done (stream_workers api text table q w levels threads sched) ≡ true
        → total (λ w. g w.shard) (stream_workers api text table q w levels threads sched) % u64_mod
          ≡ range f 0 n % u64_mod
    unfolding stream_workers
    counter g f sched counts z d =
        let all : min (claims * 64) n ≡ n = omega arith in
        dynamic_total (stream_job api text table q w levels) g (λ b. range f b (chunk_len b)) claims
          threads refl counts job_Ends no_extraction 0 threads z room (omega arith) sched
          (omega arith) d
        ∙ ap (λ t. t % u64_mod) (range-claims f claims (omega arith) ∙ ap (range f 0) all)

    -- Whatever the interleaving, several threads that have all ended give what one thread
    -- without a trace gives, if the claims of 64 records fit in 64 bits.
    pub run_stream-serial :
        (sched none_ : List ℕ)
        → all_done (stream_workers api text table q w levels threads sched) ≡ true
        → run_stream api text table q w levels threads none 0 sched
          ≡ run_stream api text table q w levels 1 none 0 none_
    unfolding run_stream
    run_stream-serial sched none_ d =
        let ws = stream_workers api text table q w levels threads sched in
        let several : leb threads 1 ≡ false = ground arith in
        let par = merge_shards-Adds ws in
        let ser = records_from-Adds api text table q w levels 0 n in
        let a = merge_shards ws no_extraction in
        let b = records_from api text table q w levels 0 n no_extraction in
        let sums =
          counter (λ e. e.sum) (sum_at api text table q w levels) sched
            (record { adds = λ t e. (run_chunk-Adds t).sum e }) refl d in
        let matches =
          counter (λ e. e.matches) (matches_at api text table q w levels) sched
            (record { adds = λ t e. (run_chunk-Adds t).matches e }) refl d in
        rw several (
          extraction_eq a b (par.word no_extraction empty-IsWord)
            (ser.word no_extraction empty-IsWord)
            (par.sum no_extraction ∙ omega (arith, sums) ∙ sym (ser.sum no_extraction))
            (par.matches no_extraction ∙ omega (arith, matches) ∙ sym (ser.matches no_extraction))
            (par.quiet no_extraction refl ∙ sym (ser.quiet no_extraction refl))
            (par.limit no_extraction ∙ sym (ser.limit no_extraction)))
