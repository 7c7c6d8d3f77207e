-- ===== src/Simdjson/Trees/Agree.antt =====
-- src/simdjson_engine.cpp: the queries beside the JSONPath expressions of src/common.h.
use mathlib.Core.Path.{subst}
use jsonstreambench.Prelude.{
  ◌≡◌, refl, ap, ◌∙◌, sym, Bool, true, false, ◌||◌, none, some, arith, Bytes, codes, if◌then◌else◌,
  ◌==◌, visit,
}
use jsonstreambench.Extraction.{Extraction, no_extraction}
use jsonstreambench.QueryId.{
  QueryId, twitter, bestbuy, google_map, nspl, walmart, wiki, openalex, bytes_eq,
}
use jsonstreambench.QueryId.Names.{bytes_eq_sound}
use jsonstreambench.DomQueries
use jsonstreambench.DomQueries.{Traits, if_some}
use jsonstreambench.DomQueries.Paths.{query_paths, select_all, run_query-select_all}
use jsonstreambench.Ondemand.{Outcome, ok, err, ◌>>=◌, Api}
use jsonstreambench.Simdjson.{
  Workload, if_ok, of_value, take_value, each_field, each_root_field, each_index, take_member,
  each_member, take_inner, each_cell, twitter_field, walmart_field, openalex_field, q_twitter,
  q_bestbuy, q_google, q_nspl, q_walmart, q_wiki, q_openalex, run_query,
}
use jsonstreambench.Simdjson.Trees.{Same, Same-id, to_node, lookup, Differ, each_field-Same}
use jsonstreambench.Simdjson.Trees.Reads.{
  Reads, value_of, Same-by, feed_of, taken, member_of, member-Same, inner_of, inner-Same, array_of,
  array-Same, each_member-Same,
}
use jsonstreambench.Simdjson.Trees.Positions.{index-Same}
use jsonstreambench.Sliced.Serial.{empty-IsWord}

-- Texts that differ have no text in common.
differ : (a b : Bytes) → bytes_eq a b ≡ false → Differ a b
differ a b h k e = rw (bytes_eq_sound k a e) h

module _ (api : Api) (t : Traits) (w : Workload) (r : Reads api t w) where
  open t use {Node, obj_get, arr_at, elements, feed}
  open r use {node}

  abbrev QuerySame : QueryId → api.Value → Type 0
  QuerySame q v =
      Same (λ e. (run_query api q (of_value api v) w e).1) (DomQueries.run_query t q (node v))

  -- The loops over the members of the root.
  root-Same :
      (a b : Bytes) (v : api.Value) (f : Bytes → api.Value → Extraction → Extraction)
      (fa fb : Node → Extraction → Extraction)
      → Differ a b
      → ((k : Bytes) (u : api.Value) → bytes_eq k a ≡ true → Same (f k u) (fa (node u)))
      → ((k : Bytes) (u : api.Value) → bytes_eq k b ≡ true → Same (f k u) (fb (node u)))
      → ((k : Bytes) (u : api.Value)
          → bytes_eq k a ≡ false
          → bytes_eq k b ≡ false
          → Same (f k u) (λ e. e))
      → Same
          (λ e. (each_root_field api f (api.value_object v) e).1)
          (λ e. if_some (obj_get (node v) b) fb (if_some (obj_get (node v) a) fa e))
  root-Same a b v f fa fb apart at_a at_b else_ = go (api.value_object v) refl
    where
      go :
          (x : Outcome api.Object)
          → api.value_object v ≡ x
          → Same
              (λ e. (each_root_field api f x e).1)
              (λ e. if_some (obj_get (node v) b) fb (if_some (obj_get (node v) a) fa e))
      go (ok o) e =
          let m = r.members v o e in
          let h = each_field-Same api node a b apart f fa fb at_a at_b else_ m.kvs m.unique in
          let left =
            subst
              (λ l.
                Same (λ e. (each_field api f l e).1)
                  (λ e.
                    if_some (to_node node (lookup b m.kvs)) fb
                      (if_some (to_node node (lookup a m.kvs)) fa e)))
              (sym m.fields) h in
          let right =
            subst
              (λ n.
                Same (λ e. (each_field api f (api.fields o) e).1)
                  (λ e. if_some (to_node node (lookup b m.kvs)) fb (if_some n fa e)))
              (m.found a) left in
          unfold each_root_field in
          subst
            (λ n.
              Same (λ e. (each_field api f (api.fields o) e).1)
                (λ e. if_some n fb (if_some (obj_get (node v) a) fa e)))
            (m.found b) right
      go (err c) e =
          unfold each_root_field in
          subst (λ n. Same (λ e. e) (λ e. if_some n fb (if_some (obj_get (node v) a) fa e)))
            (sym (r.not_object v c b e))
            (subst (λ n. Same (λ e. e) (if_some n fa)) (sym (r.not_object v c a e)) Same-id)

  if_then :
      (f g : Extraction → Extraction) {k : Extraction → Extraction} (b : Bool)
      → b ≡ true
      → Same f k
      → Same (λ out. if b then f out else g out) k
  if_then f g true e h = h
  if_then f g false e h = absurd (ground arith)

  if_else :
      (f g : Extraction → Extraction) {k : Extraction → Extraction} (b : Bool)
      → b ≡ false
      → Same g k
      → Same (λ out. if b then f out else g out) k
  if_else f g false e h = h
  if_else f g true e h = absurd (ground arith)

  -- A loop that takes the value of one key, and a member of the value of another.
  abbrev take_two : Bytes → Bytes → Bytes → Bytes → api.Value → Extraction → Extraction
  take_two a b key k u out =
      if bytes_eq k a
      then take_value api w u out
      else if bytes_eq k b
      then take_member api w key (ok u) out
      else out

  take_two-Same :
      (a b key : Bytes) (v : api.Value)
      → bytes_eq a b ≡ false
      → bytes_eq b a ≡ false
      → Same
          (λ e. (each_root_field api (take_two a b key) (api.value_object v) e).1)
          (λ e.
            if_some
              (obj_get (node v) b)
              (member_of api t w r key)
              (if_some (obj_get (node v) a) (feed_of api t w r) e))
  take_two-Same a b key v apart apart' =
      root-Same a b v (take_two a b key) (feed_of api t w r) (member_of api t w r key)
        (differ a b apart) (λ k u e. if_then _ _ (bytes_eq k a) e (taken api t w r u))
        (λ k u e.
          if_else _ _ (bytes_eq k a) (differ b a apart' k e)
            (if_then _ _ (bytes_eq k b) e (member-Same api t w r key u)))
        (λ k u ea eb. if_else _ _ (bytes_eq k a) ea (if_else _ _ (bytes_eq k b) eb Same-id))

  twitter-Same : (v : api.Value) → QuerySame twitter v
  unfolding run_query q_twitter twitter_field DomQueries.run_query DomQueries.q_twitter member_of
      feed_of bytes_eq
  twitter-Same v = take_two-Same (codes "lang") (codes "user") (codes "lang") v refl refl

  walmart-Same : (v : api.Value) → QuerySame walmart v
  unfolding run_query q_walmart walmart_field DomQueries.run_query DomQueries.q_walmart member_of
      feed_of bytes_eq
  walmart-Same v =
      take_two-Same (codes "name") (codes "bestMarketplacePrice") (codes "price") v refl refl

  openalex-Same : (v : api.Value) → QuerySame openalex v
  unfolding run_query q_openalex openalex_field DomQueries.run_query DomQueries.q_openalex feed_of
      bytes_eq
  openalex-Same v =
      let a : Bytes = codes "display_name" in
      let b : Bytes = codes "works_count" in
      root-Same a b v (openalex_field api w) (feed_of api t w r) (feed_of api t w r)
        (differ a b refl)
        (λ k u e. if_then _ _ (bytes_eq k a || bytes_eq k b) (ground arith) (taken api t w r u))
        (λ k u e. if_then _ _ (bytes_eq k a || bytes_eq k b) (ground arith) (taken api t w r u))
        (λ k u ea eb. if_else _ _ (bytes_eq k a || bytes_eq k b) (ground arith) Same-id)

  google-Same : (v : api.Value) → QuerySame google_map v
  unfolding run_query q_google DomQueries.run_query DomQueries.q_google DomQueries.arr_each array_of
      inner_of member_of feed_of
  google-Same v =
      let texts = take_inner api w (codes "distance") (codes "text") in
      let in_steps = inner-Same api t w r (codes "distance") (codes "text") in
      let in_legs = each_member-Same api t w r texts _ in_steps (codes "steps") in
      let in_routes =
        each_member-Same api t w r (each_member api (codes "steps") texts) _ in_legs
          (codes "legs") in
      each_member-Same api t w r
        (each_member api (codes "legs") (each_member api (codes "steps") texts)) _ in_routes
        (codes "routes") v

  bestbuy-Same : (v : api.Value) → QuerySame bestbuy v
  unfolding run_query q_bestbuy DomQueries.run_query DomQueries.q_bestbuy visit member_of feed_of
  bestbuy-Same v = go (api.value_find v (codes "categoryPath")) (r.find v (codes "categoryPath"))
    where
      both : Node → Extraction → Extraction
      both path out =
          if_some (arr_at path 2) (member_of api t w r (codes "id"))
            (if_some (arr_at path 1) (member_of api t w r (codes "id")) out)

      go :
          (x : Outcome api.Value)
          → to_node node (value_of x) ≡ obj_get (node v) (codes "categoryPath")
          → Same
              (λ out.
                if_ok
                  (x >>= api.value_array)
                  (λ path out.
                    each_index api
                      (λ i. i == 1 || i == 2)
                      2
                      (take_member api w (codes "id"))
                      0
                      (api.elements path)
                      out)
                  out)
              (if_some (obj_get (node v) (codes "categoryPath")) both)
      go (ok u) e =
          Same-by api t w r (some (node u)) (obj_get (node v) (codes "categoryPath")) both e (
            index-Same api t w r (take_member api w (codes "id")) (member_of api t w r (codes "id"))
              (member-Same api t w r (codes "id")) 1 u (api.value_array u) refl)
      go (err c) e = Same-by api t w r none (obj_get (node v) (codes "categoryPath")) both e Same-id

  nspl-Same : (v : api.Value) → QuerySame nspl v
  unfolding run_query q_nspl each_cell DomQueries.run_query DomQueries.q_nspl visit feed_of
  nspl-Same v = go (api.value_array v) refl
    where
      go :
          (x : Outcome api.Array)
          → api.value_array v ≡ x
          → Same
              (λ e. (each_cell api w x e).1)
              (λ out.
                if_some
                  (arr_at (node v) 9)
                  (feed_of api t w r)
                  (if_some (arr_at (node v) 8) (feed_of api t w r) out))
      go (ok row) e =
          index-Same api t w r (λ cell out. if_ok cell (take_value api w) out) (feed_of api t w r)
            (taken api t w r) 8 v (ok row) e
      go (err c) e =
          index-Same api t w r (λ cell out. if_ok cell (take_value api w) out) (feed_of api t w r)
            (taken api t w r) 8 v (err c) e

  wiki-Same : (v : api.Value) → QuerySame wiki v
  unfolding run_query q_wiki DomQueries.run_query DomQueries.q_wiki DomQueries.arr_each array_of
      inner_of member_of feed_of
  wiki-Same v = in_claims (api.value_find v (codes "claims")) (r.find v (codes "claims"))
    where
      texts : Outcome api.Value → Extraction → Extraction
      texts = take_inner api w (codes "mainsnak") (codes "property")

      found : Node → Extraction → Extraction
      found = array_of api t w r (inner_of api t w r (codes "mainsnak") (codes "property"))

      in_p150 : Node → Extraction → Extraction
      in_p150 claims out = if_some (obj_get claims (codes "P150")) found out

      at_p150 :
          (u : api.Value) (x : Outcome api.Value)
          → to_node node (value_of x) ≡ obj_get (node u) (codes "P150")
          → Same
              (λ out. if_ok (x >>= api.value_array) (λ p out. visit texts (api.elements p) out) out)
              (in_p150 (node u))
      at_p150 u (ok p) e =
          Same-by api t w r (some (node p)) (obj_get (node u) (codes "P150")) found e (
            array-Same api t w r texts _
              (inner-Same api t w r (codes "mainsnak") (codes "property")) p (api.value_array p)
              refl)
      at_p150 u (err c) e = Same-by api t w r none (obj_get (node u) (codes "P150")) found e Same-id

      in_object :
          (u : api.Value) (x : Outcome api.Object)
          → api.value_object u ≡ x
          → Same
              (λ out.
                if_ok x
                  (λ claims out.
                    if_ok
                      (api.object_find claims (codes "P150") >>= api.value_array)
                      (λ p out. visit texts (api.elements p) out)
                      out)
                  out)
              (in_p150 (node u))
      in_object u (ok o) e =
          at_p150 u (api.object_find o (codes "P150")) (r.object_find u o (codes "P150") e)
      in_object u (err c) e =
          Same-by api t w r none (obj_get (node u) (codes "P150")) found
            (sym (r.not_object u c (codes "P150") e)) Same-id

      in_claims :
          (x : Outcome api.Value)
          → to_node node (value_of x) ≡ obj_get (node v) (codes "claims")
          → Same
              (λ out.
                if_ok
                  (x >>= api.value_object)
                  (λ claims out.
                    if_ok
                      (api.object_find claims (codes "P150") >>= api.value_array)
                      (λ p out. visit texts (api.elements p) out)
                      out)
                  out)
              (if_some (obj_get (node v) (codes "claims")) in_p150)
      in_claims (ok u) e =
          Same-by api t w r (some (node u)) (obj_get (node v) (codes "claims")) in_p150 e
            (in_object u (api.value_object u) refl)
      in_claims (err c) e =
          Same-by api t w r none (obj_get (node v) (codes "claims")) in_p150 e Same-id

  query-Same : (q : QueryId) (v : api.Value) → QuerySame q v
  query-Same twitter v = twitter-Same v
  query-Same bestbuy v = bestbuy-Same v
  query-Same google_map v = google-Same v
  query-Same nspl v = nspl-Same v
  query-Same walmart v = walmart-Same v
  query-Same wiki v = wiki-Same v
  query-Same openalex v = openalex-Same v

  -- If the parser reads the trees of `Traits` without errors and without two members of one
  -- key, and takes of a value what is fed of its node, then the query of simdjson leaves the
  -- sum and the count that feeding the nodes selected by the JSONPath expressions of the query
  -- leaves.
  pub run_query-selected :
      (q : QueryId) (v : api.Value)
      → let taken_ = (run_query api q (of_value api v) w no_extraction).1 in
        let fed = visit feed (select_all t (query_paths q) (node v)) no_extraction in
        (taken_.sum ≡ fed.sum) × (taken_.matches ≡ fed.matches)
  run_query-selected q v =
      let s = query-Same q v in
      let a = s.left.word no_extraction empty-IsWord in
      let b = s.right.word no_extraction empty-IsWord in
      let equal = run_query-select_all t q (node v) no_extraction in
      (
        omega (arith, s.left.sum no_extraction, s.right.sum no_extraction, a.sum, b.sum)
            ∙ ap (λ e. e.sum) equal,
        omega (
          arith,
          s.left.matches no_extraction,
          s.right.matches no_extraction,
          a.matches,
          b.matches,
        )
            ∙ ap (λ e. e.matches) equal,
      )
