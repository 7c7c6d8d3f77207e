-- ===== src/Simdjson/Runs.antt =====
-- src/simdjson_engine.cpp: the runs over a stream, over one document and in parallel.
use jsonstreambench.Prelude.{
  ℕ, Bool, false, List, [], ◌∷◌, Option, none, some, Bytes, if◌then◌else◌, ◌==◌, take, visit,
}
use jsonstreambench.Extraction.{Extraction, no_extraction, merge}
use jsonstreambench.QueryId.{QueryId, bulky_array}
use jsonstreambench.ParseMany.{
  StreamFormat, whitespace_delimited, newline_delimited, Options, parse_many,
}
use jsonstreambench.Ondemand.{Outcome, ok, err, ◌>>=◌, Api}
use jsonstreambench.Simdjson.{
  Workload, structure, Doc, of_document, of_value, count_match, dispatch,
}

-- The format of the corpus; `have` is JSONBENCH_HAVE_NEWLINE_DELIMITED.
abbrev pub corpus_format : Bool → StreamFormat
corpus_format have = if have then newline_delimited else whitespace_delimited

-- The loop over the shards of a result.
unfoldable pub merge_values : List Extraction → Extraction → Extraction
unfolding visit
merge_values es total = visit (λ e t. merge t e) es total

unfoldable pub merge_result : List (List Extraction) → Extraction → Extraction
unfolding visit merge_values
merge_result shards total = visit merge_values shards total

abbrev pub parallel_options : Bool → ℕ → ℕ → Bool → Options
parallel_options have threads slice_bytes static_partition = record {
  threads = threads;
  slice_bytes = slice_bytes;
  format = corpus_format have;
  static_partition = static_partition;
}

module _ (api : Api) where
  open api use {Document, Value, elements, value_array, iterate, iterate_many}

  -- One document of a stream; the vector that `trace` points to is passed along.
  unfoldable pub stream_document :
      QueryId
      → Workload
      → ℕ
      → Document
      → Extraction × Option (List Bytes)
      → Extraction × Option (List Bytes)
  stream_document q w limit doc (total, trace) =
      let (e, one) =
        dispatch api (of_document api doc) q w
          (record no_extraction { trace = trace; trace_limit = limit }) in
      (if e == 0 then merge total one else total, one.trace)

  unfoldable pub run_serial_format :
      Bytes
      → ℕ
      → QueryId
      → Workload
      → Bool
      → ℕ
      → StreamFormat
      → Option (List Bytes)
      → ℕ
      → Extraction × Option (List Bytes)
  unfolding visit
  run_serial_format data_ size q w threaded batch_bytes format trace limit =
      let (e, docs) = iterate_many threaded (take size data_) batch_bytes format in
      if e == 0
      then visit (stream_document q w limit) docs (no_extraction, trace)
      else (no_extraction, trace)

  unfoldable pub run_serial :
      Bool
      → Bytes
      → ℕ
      → QueryId
      → Workload
      → Bool
      → ℕ
      → Option (List Bytes)
      → ℕ
      → Extraction × Option (List Bytes)
  run_serial have data_ size q w threaded batch_bytes trace limit =
      run_serial_format data_ size q w threaded batch_bytes (corpus_format have) trace limit

  -- The loop over the items of one document: the first error ends it.
  unfoldable pub each_item : QueryId → Workload → List (Outcome Value) → Extraction → Extraction
  each_item q w [] total = total
  each_item q w (err e ∷ items) total = total
  each_item q w (ok v ∷ items) total =
      let (e, total') = dispatch api (of_value api v) q w total in
      let next = each_item q w items total' in if e == 0 then next else total'

  unfoldable pub each_array : QueryId → Workload → Outcome api.Array → Extraction
  each_array q w (ok items) = each_item q w (elements items) no_extraction
  each_array q w (err e) = no_extraction

  unfoldable pub single_items : QueryId → Workload → Outcome Document → Extraction
  unfolding each_array
  single_items q w (err e) = no_extraction
  single_items q structure (ok doc) = count_match no_extraction
  single_items q w (ok doc) = each_array q w (of_document api doc).get_array

  unfoldable pub run_single_document : Bytes → ℕ → QueryId → Workload → Extraction
  run_single_document data_ size q w = single_items q w (iterate (take size data_))

  -- `key ? doc[key].get_array() : doc.get_array()`.
  unfoldable pub bulky_items : Doc api → Option Bytes → Outcome api.Array
  bulky_items doc none = doc.get_array
  bulky_items doc (some key) = doc.find key >>= value_array

  unfoldable pub bulky_document : QueryId → Workload → Outcome Document → Extraction
  unfolding each_array bulky_items
  bulky_document q w (err e) = no_extraction
  bulky_document q structure (ok doc) = count_match no_extraction
  bulky_document q w (ok doc) = each_array q w (bulky_items (of_document api doc) (bulky_array q))

  unfoldable pub run_bulky_document : Bytes → QueryId → Workload → Extraction
  run_bulky_document json q w = bulky_document q w (iterate json)

  -- The callback that `run_parallel` hands to `parse_many`.
  unfoldable pub extract : QueryId → Workload → Document → ℕ × Extraction
  extract q w doc = dispatch api (of_document api doc) q w no_extraction

  -- `hw` is `hardware_concurrency()`, `sched` an interleaving of the threads.
  unfoldable pub run_parallel :
      ℕ → Bool → Bytes → ℕ → QueryId → Workload → ℕ → ℕ → Bool → List ℕ → Extraction
  run_parallel hw have data_ size q w threads slice_bytes static_partition sched =
      let result =
        parse_many (iterate_many false) (extract q w) hw have (take size data_)
          (parallel_options have threads slice_bytes static_partition) sched in
      merge_result result.shards no_extraction
