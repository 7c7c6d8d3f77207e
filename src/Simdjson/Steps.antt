-- ===== src/Simdjson/Steps.antt =====
-- src/simdjson_engine.cpp: what a query adds to the sink.
use jsonstreambench.Prelude.{
  ℕ, ◌+◌, ◌≡◌, refl, Bool, List, [], ◌∷◌, arith, Bytes, codes, ltb, visit,
}
use jsonstreambench.Extraction
use jsonstreambench.Extraction.{Extraction, no_extraction}
use jsonstreambench.Extraction.Sum.{Adds, feed-Adds, id-Adds, compose-Adds, if-Adds}
use jsonstreambench.QueryId.{
  QueryId, twitter, bestbuy, google_map, nspl, walmart, wiki, openalex, bytes_eq,
}
use jsonstreambench.Ondemand.{Outcome, ok, err, ◌>>=◌, JsonType, Api}
use jsonstreambench.Simdjson.{
  Workload, structure, query, decode, if_ok, Doc, count_match, take_decoded, take_value, each_field,
  each_root_field, each_index, take_member, twitter_field, q_twitter, q_bestbuy, each_member,
  take_inner, q_google, each_cell, q_nspl, walmart_field, q_walmart, q_wiki, openalex_field,
  q_openalex, run_query, dispatch,
}

-- An operation that adds two numbers to the sums.
abbrev pub SomeAdds : (Extraction → Extraction) → Type 0
SomeAdds f = (s : ℕ) × (m : ℕ) × Adds f s m

-- A fallible one: its error code does not depend on the sink.
pub record Counted (f : Extraction → ℕ × Extraction) : Type 0 where
  pub code : (e e' : Extraction) → (f e).0 ≡ (f e').0
  pub adds : SomeAdds (λ e. (f e).1)

nothing : SomeAdds (λ e. e)
nothing = (0, 0, id-Adds)

fed : (v : Bytes) → SomeAdds (Extraction.feed v)
fed v = (_, _, feed-Adds v)

after : {f g : Extraction → Extraction} → SomeAdds f → SomeAdds g → SomeAdds (λ e. g (f e))
after a b = (_, _, compose-Adds a.2 b.2)

if_ok-Adds :
    {A : Type 0} (o : Outcome A) (f : A → Extraction → Extraction)
    → ((a : A) → SomeAdds (f a))
    → SomeAdds (if_ok o f)
if_ok-Adds (ok a) f h = h a
if_ok-Adds (err e) f h = nothing

visit-SomeAdds :
    {A : Type 0} (f : A → Extraction → Extraction)
    → ((a : A) → SomeAdds (f a))
    → (xs : List A) → SomeAdds (visit f xs)
unfolding visit
visit-SomeAdds f h [] = nothing
visit-SomeAdds f h (x ∷ xs) = after (h x) (visit-SomeAdds f h xs)

always : (g : Extraction → Extraction) → SomeAdds g → Counted (λ e. (0, g e))
always g a = record { code = λ e e'. refl; adds = a }

fails : (c : ℕ) → Counted (λ e. (c, e))
fails c = record { code = λ e e'. refl; adds = nothing }

count_match-Adds : Adds count_match 0 1
count_match-Adds = record {
  sum = λ e. omega arith;
  matches = λ e. omega arith;
  word = λ e h. omega arith;
  quiet = λ e h. h;
  limit = λ e. refl;
}

module _ (api : Api) where
  decoded-Adds : (v : api.Value) (t : Outcome JsonType) → SomeAdds (take_decoded api v t)
  unfolding take_decoded
  decoded-Adds v (err e) = nothing
  decoded-Adds v (ok JsonType.string) = if_ok-Adds (api.get_string v) Extraction.feed fed
  decoded-Adds v (ok JsonType.number) =
      if_ok-Adds (api.get_double v) (λ d o. Extraction.feed (api.render d) o)
        (λ d. fed (api.render d))
  decoded-Adds v (ok JsonType.array) = fed (api.raw_json_token v)
  decoded-Adds v (ok JsonType.object) = fed (api.raw_json_token v)
  decoded-Adds v (ok JsonType.boolean) = fed (api.raw_json_token v)
  decoded-Adds v (ok JsonType.null) = fed (api.raw_json_token v)

  pub take_value-Adds : (w : Workload) (v : api.Value) → SomeAdds (take_value api w v)
  unfolding take_value
  take_value-Adds decode v = decoded-Adds v (api.type_of v)
  take_value-Adds query v = fed (api.raw_json_token v)
  take_value-Adds structure v = fed (api.raw_json_token v)

  each_field-Counted :
      (f : Bytes → api.Value → Extraction → Extraction)
      → ((key : Bytes) (v : api.Value) → SomeAdds (f key v))
      → (fs : List (Outcome Bytes × api.Value)) → Counted (each_field api f fs)
  unfolding each_field
  each_field-Counted f h [] = fails 0
  each_field-Counted f h ((ok key, v) ∷ rest) =
      let next = each_field-Counted f h rest in
      record { code = λ e e'. next.code (f key v e) (f key v e'); adds = after (h key v) next.adds }
  each_field-Counted f h ((err e, v) ∷ rest) = fails e

  root-Counted :
      (f : Bytes → api.Value → Extraction → Extraction)
      → ((key : Bytes) (v : api.Value) → SomeAdds (f key v))
      → (o : Outcome api.Object) → Counted (each_root_field api f o)
  unfolding each_root_field
  root-Counted f h (ok root) = each_field-Counted f h (api.fields root)
  root-Counted f h (err e) = fails e

  each_index-Adds :
      (wanted : ℕ → Bool) (last : ℕ) (f : Outcome api.Value → Extraction → Extraction)
      → ((v : Outcome api.Value) → SomeAdds (f v))
      → (idx : ℕ) (xs : List (Outcome api.Value)) → SomeAdds (each_index api wanted last f idx xs)
  unfolding each_index
  each_index-Adds wanted last f h idx [] = nothing
  each_index-Adds wanted last f h idx (x ∷ xs) =
      let here = if-Adds (wanted idx) (f x) (λ e. e) (h x) nothing in
      let next = after here (each_index-Adds wanted last f h (idx + 1) xs) in
      if-Adds (ltb last (idx + 1)) _ _ here next

  module _ (w : Workload) where
    take-Adds : (v : api.Value) → SomeAdds (take_value api w v)
    take-Adds = take_value-Adds w

    member-Adds : (key : Bytes) (v : Outcome api.Value) → SomeAdds (take_member api w key v)
    member-Adds key v =
        if_ok-Adds (v >>= api.value_object) _
          (λ o. if_ok-Adds (api.object_find o key) (take_value api w) take-Adds)

    twitter-Adds : (key : Bytes) (v : api.Value) → SomeAdds (twitter_field api w key v)
    unfolding twitter_field
    twitter-Adds key v =
        if-Adds (bytes_eq key (codes "lang")) _ _ (take-Adds v)
          (if-Adds (bytes_eq key (codes "user")) _ _ (member-Adds (codes "lang") (ok v)) nothing)

    walmart-Adds : (key : Bytes) (v : api.Value) → SomeAdds (walmart_field api w key v)
    unfolding walmart_field
    walmart-Adds key v = if-Adds (bytes_eq key (codes "name")) _ _ (take-Adds v) (
        if-Adds (bytes_eq key (codes "bestMarketplacePrice")) _ _
          (member-Adds (codes "price") (ok v)) nothing)

    openalex-Adds : (key : Bytes) (v : api.Value) → SomeAdds (openalex_field api w key v)
    unfolding openalex_field
    openalex-Adds key v = if-Adds _ _ _ (take-Adds v) nothing

    each_member-Adds :
        (key : Bytes) (f : Outcome api.Value → Extraction → Extraction)
        → ((v : Outcome api.Value) → SomeAdds (f v))
        → (v : Outcome api.Value) → SomeAdds (each_member api key f v)
    each_member-Adds key f h v =
        if_ok-Adds ((v >>= λ v. api.value_find v key) >>= api.value_array) _
          (λ xs. visit-SomeAdds f h (api.elements xs))

    steps-Adds :
        (v : Outcome api.Value)
        → SomeAdds (
            each_member api
              (codes "legs")
              (each_member api (codes "steps") (take_inner api w (codes "distance") (codes "text")))
              v)
    steps-Adds v =
        each_member-Adds (codes "legs") _
          (each_member-Adds (codes "steps") _ (λ v. member-Adds (codes "text") _)) v

    bestbuy-Counted : (doc : Doc api) → Counted (q_bestbuy api doc w)
    unfolding q_bestbuy
    bestbuy-Counted doc = always _ (
        if_ok-Adds (doc.find (codes "categoryPath") >>= api.value_array) _
          (λ path. each_index-Adds _ 2 _ (member-Adds (codes "id")) 0 (api.elements path)))

    google-Counted : (doc : Doc api) → Counted (q_google api doc w)
    unfolding q_google
    google-Counted doc = always _ (
        if_ok-Adds (doc.find (codes "routes") >>= api.value_array) _
          (λ routes. visit-SomeAdds _ steps-Adds (api.elements routes)))

    cell-Counted : (row : Outcome api.Array) → Counted (each_cell api w row)
    unfolding each_cell
    cell-Counted (ok row) = always _ (
        each_index-Adds _ 9 (λ cell out. if_ok cell (take_value api w) out)
          (λ v. if_ok-Adds v (take_value api w) take-Adds) 0 (api.elements row))
    cell-Counted (err e) = fails e

    wiki-Counted : (doc : Doc api) → Counted (q_wiki api doc w)
    unfolding q_wiki
    wiki-Counted doc = always _ (
        if_ok-Adds (doc.find (codes "claims") >>= api.value_object) _ (λ claims.
          if_ok-Adds (api.object_find claims (codes "P150") >>= api.value_array) _ (λ p150.
            visit-SomeAdds (take_inner api w (codes "mainsnak") (codes "property"))
              (λ v. member-Adds (codes "property") _) (api.elements p150))))

    query-Counted : (q : QueryId) (doc : Doc api) → Counted (run_query api q doc w)
    unfolding run_query q_nspl q_twitter q_walmart q_openalex
    query-Counted twitter doc = root-Counted _ twitter-Adds doc.get_object
    query-Counted bestbuy doc = bestbuy-Counted doc
    query-Counted google_map doc = google-Counted doc
    query-Counted nspl doc = cell-Counted doc.get_array
    query-Counted walmart doc = root-Counted _ walmart-Adds doc.get_object
    query-Counted wiki doc = wiki-Counted doc
    query-Counted openalex doc = root-Counted _ openalex-Adds doc.get_object

  pub dispatch-Counted :
      (doc : Doc api) (q : QueryId) (w : Workload) → Counted (dispatch api doc q w)
  unfolding dispatch
  dispatch-Counted doc q structure = always count_match (0, 1, count_match-Adds)
  dispatch-Counted doc q query = query-Counted query q doc
  dispatch-Counted doc q decode = query-Counted decode q doc
