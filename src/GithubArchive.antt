-- ===== src/GithubArchive.antt =====
-- src/cujson_baseline/github_archive.cpp: the repository names of the push events, from JSON lines
-- by one thread or several, and from one document.
pub mod Events
pub mod Agree
pub mod Checks
use Prim.Native.Nat.{bit_xor}
use jsonstreambench.Prelude.{
  ℕ, suc, ◌+◌, ◌*◌, ◌%◌, ◌^◌, Bool, true, false, List, [], ◌∷◌, Bytes, codes, if◌then◌else◌, ◌==◌,
  u64_mod,
}
use jsonstreambench.Extraction.{Extraction, no_extraction}
use jsonstreambench.QueryId.{bytes_eq}
use jsonstreambench.ParseMany.{whitespace_delimited, Options, parse_many}
use jsonstreambench.Ondemand.{Outcome, ok, err, ◌>>=◌, Api}
use jsonstreambench.Simdjson.{Doc, of_document, of_value}
use jsonstreambench.Simdjson.Runs.{corpus_format, merge_result}

fnv1a_from : ℕ → Bytes → ℕ
fnv1a_from h [] = h
fnv1a_from h (c ∷ s) = fnv1a_from (bit_xor h c * 1099511628211 % u64_mod) s

unfoldable pub fnv1a : Bytes → ℕ
unfolding fnv1a_from
fnv1a s = fnv1a_from 14695981039346656037 s

-- `matches++` and `sum += h`.
unfoldable pub add_hash : ℕ → Extraction → Extraction
add_hash h out = record out { matches = (out.matches + 1) % u64_mod; sum = (out.sum + h) % u64_mod }

unfoldable pub push_name : Outcome Bytes → Extraction → ℕ × Extraction
push_name (err e) out = (e, out)
push_name (ok name) out = (0, add_hash (fnv1a name) out)

-- The event is a push, or it is not.
unfoldable pub push_matching : Bool → Outcome Bytes → Extraction → ℕ × Extraction
unfolding push_name
push_matching true name out = push_name name out
push_matching false name out = (0, out)

unfoldable pub push_typed : Outcome Bytes → Outcome Bytes → Extraction → ℕ × Extraction
unfolding push_matching
push_typed (err e) name out = (e, out)
push_typed (ok type) name out = push_matching (bytes_eq type (codes "PushEvent")) name out

abbrev pub parallel_options : Bool → ℕ → Bool → Options
parallel_options have threads static_partition = record {
  threads = threads;
  slice_bytes = 256 * 2 ^ 10;
  format = corpus_format have;
  static_partition = static_partition;
}

module _ (api : Api) where
  open api use {Document, Value, value_find, get_string, elements, iterate, iterate_many}

  unfoldable pub push_repo_name : Doc api → Extraction → ℕ × Extraction
  unfolding push_typed
  push_repo_name doc out =
      push_typed (doc.find (codes "type") >>= get_string)
        (doc.find (codes "repo") >>= (λ repo. value_find repo (codes "name")) >>= get_string) out

  -- One event of the stream.
  unfoldable pub serial_event : Document → Extraction → ℕ × Extraction
  serial_event doc total =
      let e = api.document_error doc in
      if e == 0 then push_repo_name (of_document api doc) total else (e, total)

  unfoldable pub serial_events : List Document → Extraction → Extraction
  serial_events [] total = total
  serial_events (doc ∷ docs) total =
      let (e, total') = serial_event doc total in
      let rest = serial_events docs total' in if e == 0 then rest else no_extraction

  unfoldable pub lines_serial : Bytes → Bool → Extraction
  lines_serial json threaded =
      let (e, docs) = iterate_many threaded json (16 * 2 ^ 20) whitespace_delimited in
      if e == 0 then serial_events docs no_extraction else no_extraction

  -- The callback that `lines_parallel` hands to `parse_many`.
  unfoldable pub push_extract : Document → ℕ × Extraction
  push_extract doc = push_repo_name (of_document api doc) no_extraction

  unfoldable pub lines_parallel : ℕ → Bool → Bytes → ℕ → Bool → List ℕ → Extraction
  lines_parallel hw have json threads static_partition sched =
      let result =
        parse_many (iterate_many false) push_extract hw have json
          (parallel_options have threads static_partition) sched in
      if result.errors == 0 then merge_result result.shards no_extraction else no_extraction

  unfoldable pub document_events : List (Outcome Value) → Extraction → Extraction
  document_events [] total = total
  document_events (err e ∷ events) total = no_extraction
  document_events (ok v ∷ events) total =
      let (e, total') = push_repo_name (of_value api v) total in
      let rest = document_events events total' in if e == 0 then rest else no_extraction

  unfoldable pub array_events : Outcome api.Array → Extraction
  array_events (err e) = no_extraction
  array_events (ok events) = document_events (elements events) no_extraction

  unfoldable pub document_serial : Bytes → Extraction
  unfolding array_events
  document_serial json = array_events (iterate json >>= api.document_array)
