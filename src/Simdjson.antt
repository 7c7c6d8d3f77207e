-- ===== src/Simdjson.antt =====
-- src/simdjson_engine.h and src/simdjson_engine.cpp: the queries against the On-Demand API, and the
-- runs over a stream, over one document and in parallel.
pub mod Runs
pub mod Steps
pub mod Streams
pub mod Parallel
pub mod Single
pub mod Trees
use jsonstreambench.Prelude.{
  ℕ, zero, suc, ◌+◌, ◌%◌, Bool, true, false, ◌||◌, List, [], ◌∷◌, Option, none, some, Bytes, codes,
  if◌then◌else◌, ltb, ◌==◌, take, visit, u64_mod,
}
use jsonstreambench.Extraction
use jsonstreambench.Extraction.{Extraction, no_extraction, merge}
use jsonstreambench.QueryId.{
  QueryId, twitter, bestbuy, google_map, nspl, walmart, wiki, openalex, bytes_eq, bulky_array,
}
use jsonstreambench.ParseMany.{
  StreamFormat, whitespace_delimited, newline_delimited, Options, Result, parse_many,
}
use jsonstreambench.Ondemand.{Outcome, ok, err, ◌>>=◌, JsonType, Api}

pub data Workload : Type 0 where
  structure query decode : Workload

unfoldable pub workload_name : Workload → Bytes
workload_name structure = codes "structure"
workload_name query = codes "query"
workload_name decode = codes "decode"

-- `if (!r.get(x)) { f(x); }`.
abbrev pub if_ok :
    {A : Type 0} → Outcome A → (A → Extraction → Extraction) → Extraction → Extraction
if_ok (ok a) f out = f a out
if_ok (err e) f out = out

-- `out.matches++`.
abbrev pub count_match : Extraction → Extraction
count_match out = record out { matches = (out.matches + 1) % u64_mod }

-- The template argument `Doc`, a document or a value: its operations.
pub record Doc (api : Api) : Type 0 where
  pub get_object : Outcome api.Object
  pub get_array : Outcome api.Array
  pub find : Bytes → Outcome api.Value

module _ (api : Api) where
  open api use {
    Document, Value, Object, Array, document_object, document_array, document_find, value_object,
    value_array, value_find, fields, object_find, elements, type_of, get_string, get_double,
    raw_json_token, render, iterate, iterate_many,
  }

  abbrev pub of_document : Document → Doc api
  of_document d = record {
    get_object = document_object d;
    get_array = document_array d;
    find = document_find d;
  }

  abbrev pub of_value : Value → Doc api
  of_value v = record {
    get_object = value_object v;
    get_array = value_array v;
    find = value_find v;
  }

  unfoldable pub take_decoded : Value → Outcome JsonType → Extraction → Extraction
  take_decoded v (err e) out = out
  take_decoded v (ok JsonType.string) out = if_ok (get_string v) Extraction.feed out
  take_decoded v (ok JsonType.number) out =
      if_ok (get_double v) (λ d o. Extraction.feed (render d) o) out
  take_decoded v (ok _) out = Extraction.feed (raw_json_token v) out

  unfoldable pub take_value : Workload → Value → Extraction → Extraction
  take_value decode v out = take_decoded v (type_of v) out
  take_value _ v out = Extraction.feed (raw_json_token v) out

  -- `for (auto field : root)`: a key that cannot be read ends the query with its error.
  unfoldable pub each_field :
      (Bytes → Value → Extraction → Extraction)
      → List (Outcome Bytes × Value)
      → Extraction
      → ℕ × Extraction
  each_field f [] out = (0, out)
  each_field f ((ok key, v) ∷ rest) out = each_field f rest (f key v out)
  each_field f ((err e, v) ∷ rest) out = (e, out)

  unfoldable pub each_root_field :
      (Bytes → Value → Extraction → Extraction) → Outcome Object → Extraction → ℕ × Extraction
  each_root_field f (ok root) out = each_field f (fields root) out
  each_root_field f (err e) out = (e, out)

  -- `for (auto elem : path) { if (idx ...) ...; idx++; if (idx > last) { break; } }`.
  unfoldable pub each_index :
      (ℕ → Bool)
      → ℕ
      → (Outcome Value → Extraction → Extraction)
      → ℕ
      → List (Outcome Value)
      → Extraction
      → Extraction
  each_index wanted last f idx [] out = out
  each_index wanted last f idx (elem ∷ rest) out =
      let out' = if wanted idx then f elem out else out in
      let next = each_index wanted last f (idx + 1) rest out' in
      if ltb last (idx + 1) then out' else next

  -- The value of member `key` of the object `v`, if both are there.
  abbrev pub take_member : Workload → Bytes → Outcome Value → Extraction → Extraction
  take_member w key v out =
      if_ok (v >>= value_object) (λ o out. if_ok (object_find o key) (take_value w) out) out

  unfoldable pub twitter_field : Workload → Bytes → Value → Extraction → Extraction
  twitter_field w key v out =
      if bytes_eq key (codes "lang")
      then take_value w v out
      else if bytes_eq key (codes "user")
      then take_member w (codes "lang") (ok v) out
      else out

  unfoldable pub q_twitter : Doc api → Workload → Extraction → ℕ × Extraction
  q_twitter doc w out = each_root_field (twitter_field w) doc.get_object out

  unfoldable pub q_bestbuy : Doc api → Workload → Extraction → ℕ × Extraction
  q_bestbuy doc w out = (
    0,
    if_ok (doc.find (codes "categoryPath") >>= value_array)
        (λ path out.
          each_index (λ i. i == 1 || i == 2) 2 (take_member w (codes "id")) 0 (elements path) out)
        out,
  )

  -- The elements of the array that member `key` of an element holds; `continue` if there is none.
  abbrev pub each_member :
      Bytes → (Outcome Value → Extraction → Extraction) → Outcome Value → Extraction → Extraction
  each_member key f v out =
      if_ok ((v >>= λ v. value_find v key) >>= value_array) (λ xs out. visit f (elements xs) out)
        out

  -- The member `key` of the object that member `name` of an element holds.
  abbrev pub take_inner : Workload → Bytes → Bytes → Outcome Value → Extraction → Extraction
  take_inner w name key v out = take_member w key (v >>= λ v. value_find v name) out

  unfoldable pub q_google : Doc api → Workload → Extraction → ℕ × Extraction
  unfolding visit
  q_google doc w out = (
    0,
    if_ok (doc.find (codes "routes") >>= value_array)
        (λ routes out.
          visit
            (each_member (codes "legs")
              (each_member (codes "steps") (take_inner w (codes "distance") (codes "text"))))
            (elements routes) out)
        out,
  )

  unfoldable pub each_cell : Workload → Outcome Array → Extraction → ℕ × Extraction
  each_cell w (ok row) out = (
    0,
    each_index (λ i. i == 8 || i == 9) 9 (λ cell out. if_ok cell (take_value w) out) 0
        (elements row) out,
  )
  each_cell w (err e) out = (e, out)

  unfoldable pub q_nspl : Doc api → Workload → Extraction → ℕ × Extraction
  unfolding each_cell
  q_nspl doc w out = each_cell w doc.get_array out

  unfoldable pub walmart_field : Workload → Bytes → Value → Extraction → Extraction
  walmart_field w key v out =
      if bytes_eq key (codes "name")
      then take_value w v out
      else if bytes_eq key (codes "bestMarketplacePrice")
      then take_member w (codes "price") (ok v) out
      else out

  unfoldable pub q_walmart : Doc api → Workload → Extraction → ℕ × Extraction
  q_walmart doc w out = each_root_field (walmart_field w) doc.get_object out

  unfoldable pub q_wiki : Doc api → Workload → Extraction → ℕ × Extraction
  unfolding visit
  q_wiki doc w out = (
    0,
    if_ok (doc.find (codes "claims") >>= value_object)
        (λ claims out.
          if_ok (object_find claims (codes "P150") >>= value_array)
            (λ p150 out.
              visit (take_inner w (codes "mainsnak") (codes "property")) (elements p150) out)
            out)
        out,
  )

  unfoldable pub openalex_field : Workload → Bytes → Value → Extraction → Extraction
  openalex_field w key v out =
      if bytes_eq key (codes "display_name") || bytes_eq key (codes "works_count")
      then take_value w v out
      else out

  unfoldable pub q_openalex : Doc api → Workload → Extraction → ℕ × Extraction
  q_openalex doc w out = each_root_field (openalex_field w) doc.get_object out

  unfoldable pub run_query : QueryId → Doc api → Workload → Extraction → ℕ × Extraction
  run_query twitter doc w out = q_twitter doc w out
  run_query bestbuy doc w out = q_bestbuy doc w out
  run_query google_map doc w out = q_google doc w out
  run_query nspl doc w out = q_nspl doc w out
  run_query walmart doc w out = q_walmart doc w out
  run_query wiki doc w out = q_wiki doc w out
  run_query openalex doc w out = q_openalex doc w out

  -- The error code and the sink.
  unfoldable pub dispatch : Doc api → QueryId → Workload → Extraction → ℕ × Extraction
  dispatch doc q structure out = (0, count_match out)
  dispatch doc q w out = run_query q doc w out
