-- ===== src/Pison/Stream.antt =====
-- src/pison_engine.cpp: `do_record`, `run_stream` and `run_single_record`. Building a bitmap and its
-- iterator are parameters.
use jsonstreambench.Prelude.{
  ℕ, zero, suc, ◌+◌, ◌-◌, ◌%◌, false, List, Option, none, some, Bytes, if◌then◌else◌, ltb, leb,
  length, get_or, visit, u64_mod,
}
use jsonstreambench.Extraction.{Extraction, no_extraction}
use jsonstreambench.QueryId.{QueryId}
use jsonstreambench.Pool.{Worker, Job, run, spawn}
use jsonstreambench.Sliced.{merge_shards}
use jsonstreambench.Loaders.{RecordTable}
use jsonstreambench.Pison.{Workload, structure, take_value}
use jsonstreambench.Pison.Queries.{BitmapIterator, run_query, while_move, array_next, inside}

-- `construct` gets the text, the beginning and the length of the record, the threads and the levels.
pub record PisonApi : Type 1 where
  pub iterator : BitmapIterator
  pub Bitmap : Type 0
  pub construct : Bytes → ℕ → ℕ → ℕ → ℕ → Option Bitmap
  pub get_iterator : Bitmap → Option iterator.State
  pub number : Bytes → Option Bytes

-- `out.matches++`.
unfoldable pub count_match : Extraction → Extraction
count_match out = record out { matches = (out.matches + 1) % u64_mod }

module _ (api : PisonApi) where
  open api use {iterator, Bitmap, construct, get_iterator, number}

  -- What is done with a bitmap; `values` runs the query on its iterator.
  unfoldable pub use_bitmap :
      Workload → (iterator.State → List Bytes × iterator.State) → Bitmap → Extraction → Extraction
  use_bitmap structure values bm out = count_match out
  use_bitmap w values bm out = elim (get_iterator bm) [
    | none ↦ out
    | some iter ↦ visit (take_value number w) (values iter).0 out
  ]

  unfoldable pub do_record : Bytes → ℕ → ℕ → QueryId → Workload → ℕ → ℕ → Extraction → Extraction
  do_record text offset len q w levels threads out =
      elim (construct text offset len threads levels) [
        | none ↦ out
        | some bm ↦ use_bitmap w (run_query iterator q) bm out
      ]

  module _ (text : Bytes) (table : RecordTable) (q : QueryId) (w : Workload) (levels : ℕ) where
    unfoldable pub record_at : ℕ → Extraction → Extraction
    record_at i out =
        do_record text (get_or table.offset i 0) (get_or table.lengths i 0) q w levels 1 out

    -- The loop over `k` records from `i` on.
    unfoldable pub records_from : ℕ → ℕ → Extraction → Extraction
    records_from i zero out = out
    records_from i (suc k) out = records_from (suc i) k (record_at i out)

    -- One claim of 64 records.
    unfoldable pub run_chunk : ℕ → Extraction → Extraction
    run_chunk begin out =
        let n = length table.offset in
        let behind = (begin + 64) % u64_mod in
        let end = if ltb behind n then behind else n in records_from begin (end - begin) out

    abbrev pub stream_job : Job Extraction
    stream_job = record {
      static = false;
      unit = 64;
      stop = λ begin. leb (length table.offset) begin;
      work = run_chunk;
    }

    unfoldable pub stream_workers : ℕ → List ℕ → List (Worker Extraction)
    stream_workers threads sched = (run stream_job sched (spawn no_extraction 0 threads)).workers

    -- One thread runs inline, with the trace; several threads are joined and merged.
    unfoldable pub run_stream : ℕ → Option (List Bytes) → ℕ → List ℕ → Extraction
    run_stream threads trace trace_limit sched =
        if leb threads 1
        then records_from 0 (length table.offset)
            (record { sum = 0; matches = 0; trace = trace; trace_limit = trace_limit })
        else merge_shards (stream_workers threads sched) no_extraction

  -- One bulky record: the query on every element of its array.
  unfoldable pub run_single_record : Bytes → ℕ → QueryId → Workload → ℕ → ℕ → Extraction
  run_single_record text size q w levels threads = elim (construct text 0 size threads levels) [
    | none ↦ no_extraction
    | some bm ↦
        use_bitmap w
          (while_move iterator iterator.rounds (array_next iterator)
            (inside iterator (run_query iterator q)))
          bm no_extraction
  ]
