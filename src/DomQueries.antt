-- ===== src/DomQueries.antt =====
-- src/dom_queries.h: the queries, written once against a traits type that every tree-building parser
-- supplies.
pub mod Paths
use jsonstreambench.Prelude.{ℕ, List, [], ◌∷◌, Option, none, some, Bytes, codes, visit}
use jsonstreambench.Extraction
use jsonstreambench.Extraction.{Extraction}
use jsonstreambench.QueryId.{QueryId, twitter, bestbuy, google_map, nspl, walmart, wiki, openalex}

-- `obj_get` and `arr_at` return `none` where the path does not exist; `arr_each` calls its function
-- on the elements in order.
pub record Traits : Type 1 where
  pub Node : Type 0
  pub obj_get : Node → Bytes → Option Node
  pub arr_at : Node → ℕ → Option Node
  pub elements : Node → List Node
  pub feed : Node → Extraction → Extraction

-- `snprintf` with `%.17g` is `render`, a parameter: there are no floats here.
unfoldable pub feed_number : {Double : Type 0} → (Double → Bytes) → Double → Extraction → Extraction
feed_number render d out = Extraction.feed (render d) out

unfoldable pub feed_literal : Bytes → Extraction → Extraction
feed_literal lit out = Extraction.feed lit out

-- `if (found) { f(value); }`.
abbrev pub if_some :
    {A : Type 0} → Option A → (A → Extraction → Extraction) → Extraction → Extraction
if_some none f out = out
if_some (some v) f out = f v out

module _ (t : Traits) where
  open t use {Node, obj_get, arr_at, elements, feed}

  unfoldable pub arr_each : Node → (Node → Extraction → Extraction) → Extraction → Extraction
  unfolding visit
  arr_each v f = visit f (elements v)

  unfoldable pub q_twitter : Node → Extraction → Extraction
  q_twitter doc out =
      let out' = if_some (obj_get doc (codes "lang")) (λ v o. feed v o) out in
      if_some (obj_get doc (codes "user"))
        (λ user o. if_some (obj_get user (codes "lang")) (λ v o. feed v o) o) out'

  -- The elements 1 and 2 of the array.
  unfoldable pub q_bestbuy : Node → Extraction → Extraction
  unfolding visit
  q_bestbuy doc out =
      if_some (obj_get doc (codes "categoryPath"))
        (λ path o.
          visit
            (λ i o.
              if_some (arr_at path i)
                (λ elem o. if_some (obj_get elem (codes "id")) (λ id o. feed id o) o) o)
            (1 ∷ 2 ∷ []) o)
        out

  unfoldable pub q_google : Node → Extraction → Extraction
  unfolding arr_each
  q_google doc out =
      if_some (obj_get doc (codes "routes"))
        (λ routes o.
          arr_each routes
            (λ route o.
              if_some (obj_get route (codes "legs"))
                (λ legs o.
                  arr_each legs
                    (λ leg o.
                      if_some (obj_get leg (codes "steps"))
                        (λ steps o.
                          arr_each steps
                            (λ step o.
                              if_some (obj_get step (codes "distance"))
                                (λ dist o.
                                  if_some (obj_get dist (codes "text")) (λ text o. feed text o) o)
                                o)
                            o)
                        o)
                    o)
                o)
            o)
        out

  unfoldable pub q_nspl : Node → Extraction → Extraction
  unfolding visit
  q_nspl doc out = visit (λ i o. if_some (arr_at doc i) (λ cell o. feed cell o) o) (8 ∷ 9 ∷ []) out

  unfoldable pub q_walmart : Node → Extraction → Extraction
  q_walmart doc out =
      let out' = if_some (obj_get doc (codes "name")) (λ v o. feed v o) out in
      if_some (obj_get doc (codes "bestMarketplacePrice"))
        (λ bmp o. if_some (obj_get bmp (codes "price")) (λ v o. feed v o) o) out'

  unfoldable pub q_wiki : Node → Extraction → Extraction
  unfolding arr_each
  q_wiki doc out =
      if_some (obj_get doc (codes "claims"))
        (λ claims o.
          if_some (obj_get claims (codes "P150"))
            (λ p150 o.
              arr_each p150
                (λ claim o.
                  if_some (obj_get claim (codes "mainsnak"))
                    (λ snak o. if_some (obj_get snak (codes "property")) (λ prop o. feed prop o) o)
                    o)
                o)
            o)
        out

  unfoldable pub q_openalex : Node → Extraction → Extraction
  q_openalex doc out =
      let out' = if_some (obj_get doc (codes "display_name")) (λ v o. feed v o) out in
      if_some (obj_get doc (codes "works_count")) (λ v o. feed v o) out'

  unfoldable pub run_query : QueryId → Node → Extraction → Extraction
  unfolding q_twitter q_bestbuy q_google q_nspl q_walmart q_wiki q_openalex
  run_query twitter doc out = q_twitter doc out
  run_query bestbuy doc out = q_bestbuy doc out
  run_query google_map doc out = q_google doc out
  run_query nspl doc out = q_nspl doc out
  run_query walmart doc out = q_walmart doc out
  run_query wiki doc out = q_wiki doc out
  run_query openalex doc out = q_openalex doc out
