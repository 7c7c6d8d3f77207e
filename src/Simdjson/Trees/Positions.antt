-- ===== src/Simdjson/Trees/Positions.antt =====
-- src/simdjson_engine.cpp: the loops over an array that stop behind two positions.
use mathlib.Core.Path.{subst, fun_ext}
use jsonstreambench.Prelude.{
  ℕ, zero, suc, ◌+◌, ◌≤◌, ◌≡◌, refl, sym, Bool, true, false, ◌||◌, List, [], ◌∷◌, arith,
  if◌then◌else◌, ltb, ◌==◌, get_elem?, map,
}
use jsonstreambench.Extraction.{Extraction}
use jsonstreambench.DomQueries.{Traits, if_some}
use jsonstreambench.Ondemand.{Outcome, ok, err, Api}
use jsonstreambench.Simdjson.{Workload, if_ok, each_index}
use jsonstreambench.Simdjson.Trees.{Same, Same-id, Same-compose, to_node, AllSame}
use jsonstreambench.Simdjson.Trees.Reads.{Reads}

module _ (api : Api) (t : Traits) (w : Workload) (r : Reads api t w) where
  open t use {Node, obj_get, arr_at, elements, feed}
  open r use {node}

  -- The loop over positions, for the last two of them.
  module _ (f : Outcome api.Value → Extraction → Extraction) (g : Node → Extraction → Extraction)
      (h : AllSame node (λ v. f (ok v)) g) where
    abbrev items_of : List api.Value → List (Outcome api.Value)
    items_of vs = map (λ u. ok u) vs

    abbrev pub two_of : ℕ → ℕ → Bool
    two_of a i = i == a || i == suc a

    last_item :
        (a : ℕ) (vs : List api.Value)
        → Same
            (each_index api (two_of a) (suc a) f (suc a) (items_of vs))
            (if_some (to_node node (get_elem? vs 0)) g)
    unfolding each_index
    last_item a [] = Same-id
    last_item a (v ∷ vs) =
        let wanted : two_of a (suc a) ≡ true = ground arith in
        let ends : ltb (suc a) (suc a + 1) ≡ true = ground arith in
        subst
          (λ b.
            Same
              (λ out.
                let out' = if b then f (ok v) out else out in
                let next = each_index api (two_of a) (suc a) f (suc a + 1) (items_of vs) out' in
                if ltb (suc a) (suc a + 1) then out' else next)
              (g (node v)))
          (sym wanted)
          (subst
            (λ b.
              Same
                (λ out.
                  if b
                  then f (ok v) out
                  else each_index api (two_of a) (suc a) f (suc a + 1) (items_of vs) (f (ok v) out))
                (g (node v)))
            (sym ends) (h v))

    goes_on :
        (a idx : ℕ) (b : Bool) (v : api.Value) (vs : List api.Value)
        → two_of a idx ≡ b
        → idx ≤ a
        → (λ (out : Extraction).
            each_index api
              (two_of a)
              (suc a)
              f
              (suc idx)
              (items_of vs)
              (if b then f (ok v) out else out))
          ≡ each_index api (two_of a) (suc a) f idx (items_of (v ∷ vs))
    unfolding each_index
    goes_on a idx b v vs e le = fun_ext (λ out.
        let on : ltb (suc a) (idx + 1) ≡ false = ground arith in
        let at : idx + 1 ≡ suc idx = omega arith in rw (on, e, at) refl)

    two_items :
        (d idx a : ℕ) (vs : List api.Value)
        → a ≡ d + idx
        → Same (each_index api (two_of a) (suc a) f idx (items_of vs)) (λ out.
          if_some
            (to_node node (get_elem? vs (suc d)))
            g
            (if_some (to_node node (get_elem? vs d)) g out))
    two_items d idx a [] e = unfold each_index in Same-id
    two_items zero idx a (v ∷ vs) e =
        let here : idx ≡ a = omega arith in
        subst (λ k. Same k (λ out. if_some (to_node node (get_elem? vs 0)) g (g (node v) out)))
          (goes_on a idx true v vs (ground arith) (omega arith))
          (Same-compose (h v) (
            subst
              (λ i.
                Same (each_index api (two_of a) (suc a) f (suc i) (items_of vs))
                  (if_some (to_node node (get_elem? vs 0)) g))
              (sym here) (last_item a vs)))
    two_items (suc d) idx a (v ∷ vs) e =
        subst
          (λ k. Same k (λ out.
            if_some (to_node node (get_elem? vs (suc d))) g
              (if_some (to_node node (get_elem? vs d)) g out)))
          (goes_on a idx false v vs (ground arith) (omega arith))
          (two_items d (suc idx) a vs (omega arith))

    -- The two items of an array, and the nodes at those positions.
    pub index-Same :
        (a : ℕ) (v : api.Value) (x : Outcome api.Array)
        → api.value_array v ≡ x
        → Same
            (if_ok x (λ xs out. each_index api (two_of a) (suc a) f 0 (api.elements xs) out))
            (λ out. if_some (arr_at (node v) (suc a)) g (if_some (arr_at (node v) a) g out))
    index-Same a v (ok xs) e =
        let i = r.items v xs e in
        subst
          (λ l.
            Same (each_index api (two_of a) (suc a) f 0 l)
              (λ out. if_some (arr_at (node v) (suc a)) g (if_some (arr_at (node v) a) g out)))
          (sym i.elements)
          (subst
            (λ n.
              Same (each_index api (two_of a) (suc a) f 0 (items_of i.values))
                (λ out. if_some n g (if_some (arr_at (node v) a) g out)))
            (sym (i.found (suc a)))
            (subst
              (λ n.
                Same (each_index api (two_of a) (suc a) f 0 (items_of i.values))
                  (λ out. if_some (to_node node (get_elem? i.values (suc a))) g (if_some n g out)))
              (sym (i.found a)) (two_items a 0 a i.values (omega arith))))
    index-Same a v (err c) e =
        subst (λ n. Same (λ out. out) (λ out. if_some n g (if_some (arr_at (node v) a) g out)))
          (sym (r.no_index v c (suc a) e))
          (subst (λ n. Same (λ out. out) (if_some n g)) (sym (r.no_index v c a e)) Same-id)
