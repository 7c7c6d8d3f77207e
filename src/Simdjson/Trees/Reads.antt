-- ===== src/Simdjson/Trees/Reads.antt =====
-- src/simdjson_engine.cpp: the steps of the queries, where the parser reads the trees of `Traits`.
use mathlib.Core.Path.{subst}
use jsonstreambench.Prelude.{
  ℕ, ◌≡◌, refl, sym, List, [], Option, none, some, Bytes, get_elem?, map, visit,
}
use jsonstreambench.Extraction.{Extraction}
use jsonstreambench.DomQueries.{Traits, if_some}
use jsonstreambench.Ondemand.{Outcome, ok, err, ◌>>=◌, Api}
use jsonstreambench.Simdjson.{Workload, if_ok, take_value, take_member, each_member, take_inner}
use jsonstreambench.Simdjson.Trees.{
  Same, Same-id, to_node, AllSame, visit-Same, lookup, UniqueKeys, ok_fields,
}

abbrev pub value_of : {A : Type 0} → Outcome A → Option A
value_of (ok a) = some a
value_of (err e) = none

-- The members of an object: `fields` hands them out in order.
pub record Members (api : Api) (t : Traits) (node : api.Value → t.Node) (v : api.Value)
    (o : api.Object) : Type 0 where
  pub kvs : List (Bytes × api.Value)
  pub fields : api.fields o ≡ ok_fields kvs
  pub unique : UniqueKeys kvs
  pub found : (k : Bytes) → to_node node (lookup k kvs) ≡ t.obj_get (node v) k

-- The items of an array.
pub record Items (api : Api) (t : Traits) (node : api.Value → t.Node) (v : api.Value)
    (a : api.Array) : Type 0 where
  pub values : List api.Value
  pub elements : api.elements a ≡ map (λ u. ok u) values
  pub nodes : t.elements (node v) ≡ map node values
  pub found : (i : ℕ) → t.arr_at (node v) i ≡ to_node node (get_elem? values i)

-- The parser reads the trees of `t`: every value is a node, without errors and without two members
-- of one key, and what is taken of a value is what is fed of its node.
pub record Reads (api : Api) (t : Traits) (w : Workload) : Type 0 where
  pub node : api.Value → t.Node
  pub find :
      (v : api.Value) (k : Bytes)
      → to_node node (value_of (api.value_find v k)) ≡ t.obj_get (node v) k
  pub object_find :
      (v : api.Value) (o : api.Object) (k : Bytes)
      → api.value_object v ≡ ok o
      → to_node node (value_of (api.object_find o k)) ≡ t.obj_get (node v) k
  pub not_object :
      (v : api.Value) (e : ℕ) (k : Bytes) → api.value_object v ≡ err e → t.obj_get (node v) k ≡ none
  pub members :
      (v : api.Value) (o : api.Object) → api.value_object v ≡ ok o → Members api t node v o
  pub items : (v : api.Value) (a : api.Array) → api.value_array v ≡ ok a → Items api t node v a
  pub no_elements : (v : api.Value) (e : ℕ) → api.value_array v ≡ err e → t.elements (node v) ≡ []
  pub no_index : (v : api.Value) (e i : ℕ) → api.value_array v ≡ err e → t.arr_at (node v) i ≡ none
  pub feeds : (v : api.Value) → Same (take_value api w v) (t.feed (node v))

module _ (api : Api) (t : Traits) (w : Workload) (r : Reads api t w) where
  open t use {Node, obj_get, arr_at, elements, feed}
  open r use {node}

  pub Same-by :
      {f : Extraction → Extraction} (o o' : Option Node) (g : Node → Extraction → Extraction)
      → o ≡ o'
      → Same f (if_some o g)
      → Same f (if_some o' g)
  Same-by {f} o o' g e h = subst (λ x. Same f (if_some x g)) e h

  -- A fallible value and the node that may be there.
  pub ok-Same :
      (x : Outcome api.Value) (n : Option Node) (f : api.Value → Extraction → Extraction)
      (g : Node → Extraction → Extraction)
      → to_node node (value_of x) ≡ n
      → AllSame node f g
      → Same (if_ok x f) (if_some n g)
  ok-Same (ok v) n f g e h = Same-by (some (node v)) n g e (h v)
  ok-Same (err c) n f g e h = Same-by none n g e Same-id

  unfoldable pub feed_of : Node → Extraction → Extraction
  feed_of n out = feed n out

  pub taken : AllSame node (take_value api w) feed_of
  unfolding feed_of
  taken v = r.feeds v

  -- `take_member` on a value.
  unfoldable pub member_of : Bytes → Node → Extraction → Extraction
  member_of key n out = if_some (obj_get n key) feed_of out

  pub member-Same : (key : Bytes) → AllSame node (λ v. take_member api w key (ok v)) (member_of key)
  unfolding member_of
  member-Same key v = go (api.value_object v) refl
    where
      go :
          (x : Outcome api.Object)
          → api.value_object v ≡ x
          → Same
              (if_ok x (λ o out. if_ok (api.object_find o key) (take_value api w) out))
              (member_of key (node v))
      go (ok o) e =
          ok-Same (api.object_find o key) (obj_get (node v) key) (take_value api w) feed_of
            (r.object_find v o key e) taken
      go (err c) e =
          Same-by none (obj_get (node v) key) feed_of (sym (r.not_object v c key e)) Same-id

  unfoldable pub inner_of : Bytes → Bytes → Node → Extraction → Extraction
  inner_of name key n out = if_some (obj_get n name) (member_of key) out

  pub inner-Same :
      (name key : Bytes) → AllSame node (λ v. take_inner api w name key (ok v)) (inner_of name key)
  unfolding inner_of
  inner-Same name key v = go (api.value_find v name) (r.find v name)
    where
      go :
          (x : Outcome api.Value)
          → to_node node (value_of x) ≡ obj_get (node v) name
          → Same (take_member api w key x) (inner_of name key (node v))
      go (ok u) e =
          Same-by (some (node u)) (obj_get (node v) name) (member_of key) e (member-Same key u)
      go (err c) e = Same-by none (obj_get (node v) name) (member_of key) e Same-id

  unfoldable pub array_of : (Node → Extraction → Extraction) → Node → Extraction → Extraction
  array_of g n out = visit g (elements n) out

  module _ (f : Outcome api.Value → Extraction → Extraction) (g : Node → Extraction → Extraction)
      (h : AllSame node (λ v. f (ok v)) g) where
    pub array-Same :
        (v : api.Value) (x : Outcome api.Array)
        → api.value_array v ≡ x
        → Same (if_ok x (λ a out. visit f (api.elements a) out)) (array_of g (node v))
    unfolding array_of
    array-Same v (ok a) e =
        let i = r.items v a e in
        subst (λ xs. Same (visit f xs) (visit g (elements (node v)))) (sym i.elements)
          (subst (λ ns. Same (visit f (map (λ u. ok u) i.values)) (visit g ns)) (sym i.nodes)
            (visit-Same node f g h i.values))
    array-Same v (err c) e =
        subst (λ ns. Same (λ out. out) (visit g ns)) (sym (r.no_elements v c e))
          (unfold visit in Same-id)

    pub each_member-Same :
        (key : Bytes) (v : api.Value)
        → Same
            (each_member api key f (ok v))
            (λ out. if_some (obj_get (node v) key) (array_of g) out)
    each_member-Same key v = go (api.value_find v key) (r.find v key)
      where
        go :
            (x : Outcome api.Value)
            → to_node node (value_of x) ≡ obj_get (node v) key
            → Same
                (λ out. if_ok (x >>= api.value_array) (λ a out. visit f (api.elements a) out) out)
                (λ out. if_some (obj_get (node v) key) (array_of g) out)
        go (ok u) e =
            Same-by (some (node u)) (obj_get (node v) key) (array_of g) e
              (array-Same u (api.value_array u) refl)
        go (err c) e = Same-by none (obj_get (node v) key) (array_of g) e Same-id
