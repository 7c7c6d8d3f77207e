-- ===== src/ParseMany.antt =====
-- src/parallel_stream.h: `parse_many`, its options and its result. The stream parser, `iterate_many`,
-- and the caller's `extract` are parameters; an error code is a number, 0 for `SUCCESS`.
pub mod Slices
pub mod Totals
use jsonstreambench.Prelude.{
  ℕ, ◌+◌, ◌*◌, ◌%◌, List, [], ◌∷◌, ◌++◌, Bool, true, false, ◌||◌, Bytes, if◌then◌else◌, ltb, leb,
  ◌==◌, length, visit, u64_mod,
}
use jsonstreambench.Lines.{newline}
use jsonstreambench.Slicing.{slice_at}
use jsonstreambench.Pool.{Worker, Job, run, spawn}
use jsonstreambench.Sliced.{slice_size, slice_count}

-- `simdjson::stream_format`: the values that the code names, and any other.
pub data StreamFormat : Type 0 where
  whitespace_delimited json_sequence newline_delimited comma_delimited other_format : StreamFormat

pub record Options : Type 0 where
  pub threads : ℕ  -- 0 stands for the number of processors
  pub slice_bytes : ℕ
  pub format : StreamFormat
  pub static_partition : Bool

abbrev pub default_options : Options
default_options = record {
  threads = 0;
  slice_bytes = 64 * 1024;
  format = whitespace_delimited;
  static_partition = false;
}

-- `have` is JSONBENCH_HAVE_NEWLINE_DELIMITED.
unfoldable pub splittable : Bool → StreamFormat → Bool
splittable have whitespace_delimited = true
splittable have json_sequence = true
splittable have newline_delimited = have
splittable have comma_delimited = false
splittable have other_format = false

unfoldable pub delimiter_for : StreamFormat → ℕ
delimiter_for json_sequence = 30
delimiter_for _ = newline

-- What one thread writes: its shard, its `errors[w]` and its `first[w]`.
pub record Shard (T : Type 0) : Type 0 where
  pub values : List T
  pub errors : ℕ
  pub first : ℕ

abbrev pub no_shard : {T : Type 0} → Shard T
no_shard = record { values = []; errors = 0; first = 0 }

pub record Result (T : Type 0) : Type 0 where
  pub shards : List (List T)
  pub errors : ℕ
  pub first_error : ℕ

-- `result::size`.
unfoldable pub size_of : {T : Type 0} → List (List T) → ℕ
size_of [] = 0
size_of (s ∷ shards) = length s + size_of shards

-- `errors[w]++; if (!first[w]) { first[w] = e; }`.
unfoldable pub note_error : {T : Type 0} → ℕ → Shard T → Shard T
note_error e shard = record shard {
  errors = (shard.errors + 1) % u64_mod;
  first = if shard.first == 0 then e else shard.first;
}

-- The number of threads; `hw` is `hardware_concurrency()`.
unfoldable pub worker_count : ℕ → Bool → Options → ℕ
worker_count hw have opt =
    let workers = if opt.threads == 0 then if ltb 1 hw then hw else 1 else opt.threads in
    if splittable have opt.format then workers else 1

-- The loop over the threads behind the joins.
unfoldable pub collect : {T : Type 0} → List (Worker (Shard T)) → Result T → Result T
collect [] out = out
collect (w ∷ ws) out = collect ws (record {
  shards = out.shards ++ w.shard.values ∷ [];
  errors = (out.errors + w.shard.errors) % u64_mod;
  first_error = if out.first_error == 0 then w.shard.first else out.first_error;
})

module _ {Doc T : Type 0} (iterate_many : Bytes → ℕ → StreamFormat → ℕ × List Doc)
    (extract : Doc → ℕ × T) where
  unfoldable pub handle_doc : Doc → Shard T → Shard T
  handle_doc doc shard =
      let (e, value) = extract doc in
      if e == 0 then record shard { values = shard.values ++ value ∷ [] } else note_error e shard

  -- A slice with its documents; an empty slice is passed over.
  unfoldable pub parse_piece : StreamFormat → Bytes → Shard T → Shard T
  parse_piece format piece shard =
      let (e, docs) = iterate_many piece (length piece) format in
      if length piece == 0
      then shard
      else if e == 0
      then visit handle_doc docs shard
      else note_error e shard

  -- The loop of a thread: it claims the index of a slice.
  abbrev pub parse_job : Bytes → ℕ → StreamFormat → Bool → Job (Shard T)
  parse_job json slice_bytes format static = record {
    static = static;
    unit = 1;
    stop = λ i. leb (length json) (i * slice_bytes % u64_mod);
    work = λ i. parse_piece format (slice_at json (delimiter_for format) slice_bytes i);
  }

  -- The threads behind an interleaving `sched`.
  unfoldable pub parse_workers : ℕ → Bool → Bytes → Options → List ℕ → List (Worker (Shard T))
  parse_workers hw have json opt sched =
      let size = slice_size opt.slice_bytes in
      (run (parse_job json size opt.format opt.static_partition) sched
        (spawn no_shard (slice_count (length json) size) (worker_count hw have opt))).workers

  unfoldable pub parse_many : ℕ → Bool → Bytes → Options → List ℕ → Result T
  parse_many hw have json opt sched =
      collect (parse_workers hw have json opt sched)
        (record { shards = []; errors = 0; first_error = 0 })
