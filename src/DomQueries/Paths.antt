-- ===== src/DomQueries/Paths.antt =====
-- The JSONPath expressions of src/common.h, and what they select.
use mathlib.Core.Path.{fun_ext}
use jsonstreambench.Prelude.{
  ℕ, List, [], ◌∷◌, ◌++◌, none, some, ◌≡◌, refl, ap, ◌∙◌, sym, Bytes, codes, visit, visit-append,
  Option-cases, inl, inr,
}
use jsonstreambench.Extraction.{Extraction}
use jsonstreambench.QueryId.{QueryId, twitter, bestbuy, google_map, nspl, walmart, wiki, openalex}
use jsonstreambench.DomQueries.{Traits, if_some, run_query}

-- `.key`, `[i]` and `[*]`.
pub data Selector : Type 0 where
  key : Bytes → Selector
  index : ℕ → Selector
  each : Selector

-- The paths of a query, in the order in which `dom_queries.h` follows them; `[1:3]` is two paths.
abbrev pub query_paths : QueryId → List (List Selector)
query_paths twitter =
    (key (codes "lang") ∷ []) ∷ (key (codes "user") ∷ key (codes "lang") ∷ []) ∷ []
query_paths bestbuy =
    (key (codes "categoryPath") ∷ index 1 ∷ key (codes "id") ∷ [])
    ∷ (key (codes "categoryPath") ∷ index 2 ∷ key (codes "id") ∷ [])
    ∷ []
query_paths google_map =
    (key (codes "routes")
      ∷ each
      ∷ key (codes "legs")
      ∷ each
      ∷ key (codes "steps")
      ∷ each
      ∷ key (codes "distance")
      ∷ key (codes "text")
      ∷ [])
    ∷ []
query_paths nspl = (index 8 ∷ []) ∷ (index 9 ∷ []) ∷ []
query_paths walmart =
    (key (codes "name") ∷ []) ∷ (key (codes "bestMarketplacePrice") ∷ key (codes "price") ∷ []) ∷ []
query_paths wiki =
    (key (codes "claims")
      ∷ key (codes "P150")
      ∷ each
      ∷ key (codes "mainsnak")
      ∷ key (codes "property")
      ∷ [])
    ∷ []
query_paths openalex = (key (codes "display_name") ∷ []) ∷ (key (codes "works_count") ∷ []) ∷ []

module _ {A B : Type 0} (f : A → List B) where
  unfoldable pub gather : List A → List B
  gather [] = []
  gather (x ∷ xs) = f x ++ gather xs

  visit-gather :
      (h : B → Extraction → Extraction) (xs : List A) (out : Extraction)
      → visit h (gather xs) out ≡ visit (λ x. visit h (f x)) xs out
  unfolding gather visit
  visit-gather h [] out = refl
  visit-gather h (x ∷ xs) out =
      visit-append h (f x) (gather xs) out ∙ visit-gather h xs (visit h (f x) out)

module _ (t : Traits) where
  open t use {Node, obj_get, arr_at, elements, feed}

  -- The nodes that a path selects below a node, in document order.
  unfoldable pub select : List Selector → Node → List Node
  unfolding gather
  select [] v = v ∷ []
  select (key k ∷ ss) v = elim (obj_get v k) [ none ↦ [] | some u ↦ select ss u ]
  select (index i ∷ ss) v = elim (arr_at v i) [ none ↦ [] | some u ↦ select ss u ]
  select (each ∷ ss) v = gather (select ss) (elements v)

  unfoldable pub select_all : List (List Selector) → Node → List Node
  unfolding select
  select_all [] v = []
  select_all (p ∷ ps) v = select p v ++ select_all ps v

  -- A path followed step by step, with a feed at its end.
  follow : List Selector → Node → Extraction → Extraction
  follow [] v out = feed v out
  follow (key k ∷ ss) v out = if_some (obj_get v k) (follow ss) out
  follow (index i ∷ ss) v out = if_some (arr_at v i) (follow ss) out
  follow (each ∷ ss) v out = visit (follow ss) (elements v) out

  follow_all : List (List Selector) → Node → Extraction → Extraction
  follow_all [] v out = out
  follow_all (p ∷ ps) v out = follow_all ps v (follow p v out)

  follow-select :
      (ss : List Selector) (v : Node) (out : Extraction)
      → follow ss v out ≡ visit feed (select ss v) out
  unfolding follow select visit
  follow-select [] v out = refl
  follow-select (key k ∷ ss) v out = elim (Option-cases (obj_get v k)) [
    | inl missing ↦ rw (missing, select)
    | inr (u, found) ↦ rw (found, select) (follow-select ss u out)
  ]
  follow-select (index i ∷ ss) v out = elim (Option-cases (arr_at v i)) [
    | inl missing ↦ rw (missing, select)
    | inr (u, found) ↦ rw (found, select) (follow-select ss u out)
  ]
  follow-select (each ∷ ss) v out =
      ap (λ f. visit f (elements v) out) (fun_ext (λ u. fun_ext (follow-select ss u)))
      ∙ sym (visit-gather (select ss) feed (elements v) out)

  follow_all-select_all :
      (ps : List (List Selector)) (v : Node) (out : Extraction)
      → follow_all ps v out ≡ visit feed (select_all ps v) out
  unfolding follow_all select_all
  follow_all-select_all [] v out = unfold visit in refl
  follow_all-select_all (p ∷ ps) v out =
      follow_all-select_all ps v (follow p v out)
      ∙ ap (visit feed (select_all ps v)) (follow-select p v out)
      ∙ sym (visit-append feed (select p v) (select_all ps v) out)

  run_query-follow_all :
      (q : QueryId) (doc : Node) (out : Extraction)
      → run_query t q doc out ≡ follow_all (query_paths q) doc out
  unfolding run_query follow_all follow
  run_query-follow_all twitter doc out = refl
  run_query-follow_all bestbuy doc out = elim (Option-cases (obj_get doc (codes "categoryPath"))) [
    | inl missing ↦ rw missing
    | inr (path, found) ↦ rw found
  ]
  run_query-follow_all google_map doc out = refl
  run_query-follow_all nspl doc out = refl
  run_query-follow_all walmart doc out = refl
  run_query-follow_all wiki doc out = refl
  run_query-follow_all openalex doc out = refl

  -- A query feeds exactly the values that its JSONPath expressions select, in order.
  pub run_query-select_all :
      (q : QueryId) (doc : Node) (out : Extraction)
      → run_query t q doc out ≡ visit feed (select_all (query_paths q) doc) out
  run_query-select_all q doc out =
      run_query-follow_all q doc out ∙ follow_all-select_all (query_paths q) doc out
