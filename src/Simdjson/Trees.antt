-- ===== src/Simdjson/Trees.antt =====
-- src/simdjson_engine.cpp beside src/dom_queries.h: operations that add the same to the sink.
pub mod Reads
pub mod Positions
pub mod Agree
use mathlib.Core.Path.{subst}
use jsonstreambench.Prelude.{
  ℕ, zero, suc, ◌+◌, ◌≤◌, ◌<◌, ◌≡◌, ◌≢◌, refl, ap, ◌∙◌, sym, Bool, true, false, ◌||◌, List, [], ◌∷◌,
  Option, none, some, arith, Bytes, if◌then◌else◌, ltb, ◌==◌, Bool-cases, inl, inr, get_elem?, map,
  visit,
}
use jsonstreambench.Extraction.{Extraction}
use jsonstreambench.Extraction.Sum.{Adds, id-Adds, compose-Adds}
use jsonstreambench.QueryId.{bytes_eq}
use jsonstreambench.DomQueries.{if_some}
use jsonstreambench.Ondemand.{Outcome, ok, err, Api}
use jsonstreambench.Simdjson.{each_field, each_index}

-- Two operations add the same sums.
pub record Same (f g : Extraction → Extraction) : Type 0 where
  pub sum : ℕ
  pub matches : ℕ
  pub left : Adds f sum matches
  pub right : Adds g sum matches

abbrev id : Extraction → Extraction
id e = e

pub Same-id : Same id id
Same-id = record { sum = 0; matches = 0; left = id-Adds; right = id-Adds }

pub Same-compose :
    {f g f' g' : Extraction → Extraction}
    → Same f f'
    → Same g g'
    → Same (λ e. g (f e)) (λ e. g' (f' e))
Same-compose a b = record {
  sum = a.sum + b.sum;
  matches = a.matches + b.matches;
  left = compose-Adds a.left b.left;
  right = compose-Adds a.right b.right;
}

-- On one side the operations may come in another order.
Same-swap :
    {f g f' g' : Extraction → Extraction}
    → Same f f'
    → Same g g'
    → Same (λ e. g (f e)) (λ e. f' (g' e))
Same-swap a b = record {
  sum = a.sum + b.sum;
  matches = a.matches + b.matches;
  left = compose-Adds a.left b.left;
  right =
      let swapped = compose-Adds b.right a.right in
      let s : b.sum + a.sum ≡ a.sum + b.sum = omega arith in
      let m : b.matches + a.matches ≡ a.matches + b.matches = omega arith in rw (← s, ← m) swapped;
}

module _ {V N : Type 0} (node : V → N) where
  abbrev pub to_node : Option V → Option N
  to_node none = none
  to_node (some v) = some (node v)

  -- Operations on values that add what operations on their nodes add.
  abbrev pub AllSame : (V → Extraction → Extraction) → (N → Extraction → Extraction) → Type 0
  AllSame f g = (v : V) → Same (f v) (g (node v))

  pub if_some-Same :
      (o : Option V) (f : V → Extraction → Extraction) (g : N → Extraction → Extraction)
      → AllSame f g
      → Same (if_some o f) (if_some (to_node o) g)
  if_some-Same none f g h = Same-id
  if_some-Same (some v) f g h = h v

  pub visit-Same :
      (f : Outcome V → Extraction → Extraction) (g : N → Extraction → Extraction)
      → AllSame (λ v. f (ok v)) g
      → (vs : List V) → Same (visit f (map (λ v. ok v) vs)) (visit g (map node vs))
  unfolding visit
  visit-Same f g h [] = Same-id
  visit-Same f g h (v ∷ vs) = Same-compose (h v) (visit-Same f g h vs)

-- The first member of that key.
unfoldable pub lookup : {V : Type 0} → Bytes → List (Bytes × V) → Option V
lookup k [] = none
lookup k ((j, v) ∷ kvs) = if bytes_eq j k then some v else lookup k kvs

pub lookup_hit :
    {V : Type 0} (j k : Bytes) (v : V) (kvs : List (Bytes × V))
    → bytes_eq k j ≡ true
    → lookup j ((k, v) ∷ kvs) ≡ some v
unfolding lookup
lookup_hit j k v kvs h = rw h refl

pub lookup_miss :
    {V : Type 0} (j k : Bytes) (v : V) (kvs : List (Bytes × V))
    → bytes_eq k j ≡ false
    → lookup j ((k, v) ∷ kvs) ≡ lookup j kvs
unfolding lookup
lookup_miss j k v kvs h = rw h refl

-- No two members have one key.
abbrev pub UniqueKeys : {V : Type 0} → List (Bytes × V) → Type 0
UniqueKeys [] = Unit
UniqueKeys ((k, v) ∷ kvs) =
    ((j : Bytes) → bytes_eq k j ≡ true → lookup j kvs ≡ none) × UniqueKeys kvs

abbrev pub ok_fields : {V : Type 0} → List (Bytes × V) → List (Outcome Bytes × V)
ok_fields kvs = map (λ kv. (ok kv.0, kv.1)) kvs

-- Different keys: no text is equal to both.
abbrev pub Differ : Bytes → Bytes → Type 0
Differ a b = (k : Bytes) → bytes_eq k a ≡ true → bytes_eq k b ≡ false

module _ (api : Api) {N : Type 0} (node : api.Value → N) (a b : Bytes) (differ : Differ a b)
    (f : Bytes → api.Value → Extraction → Extraction) (fa fb : N → Extraction → Extraction)
    (at_a : (k : Bytes) (v : api.Value) → bytes_eq k a ≡ true → Same (f k v) (fa (node v)))
    (at_b : (k : Bytes) (v : api.Value) → bytes_eq k b ≡ true → Same (f k v) (fb (node v)))
    (else_ : (k : Bytes) (v : api.Value)
      → bytes_eq k a ≡ false
      → bytes_eq k b ≡ false
      → Same (f k v) id) where
  abbrev pub each_of : Option api.Value → Option api.Value → Extraction → Extraction
  each_of va vb out = if_some (to_node node vb) fb (if_some (to_node node va) fa out)

  abbrev loop : List (Bytes × api.Value) → Extraction → Extraction
  loop kvs e = (each_field api f (ok_fields kvs) e).1

  first_member :
      (k : Bytes) (v : api.Value) (kvs : List (Bytes × api.Value)) (va vb : Option api.Value)
      → lookup a ((k, v) ∷ kvs) ≡ va
      → lookup b ((k, v) ∷ kvs) ≡ vb
      → Same (λ e. loop kvs (f k v e)) (each_of va vb)
      → Same (loop ((k, v) ∷ kvs)) (each_of (lookup a ((k, v) ∷ kvs)) (lookup b ((k, v) ∷ kvs)))
  unfolding each_field
  first_member k v kvs va vb ea eb h =
      let all = (k, v) ∷ kvs in
      subst (λ o. Same (λ e. loop kvs (f k v e)) (each_of o (lookup b all))) (sym ea)
        (subst (λ o. Same (λ e. loop kvs (f k v e)) (each_of va o)) (sym eb) h)

  -- A loop over the members feeds what a lookup of each of the two keys feeds.
  pub each_field-Same :
      (kvs : List (Bytes × api.Value))
      → UniqueKeys kvs
      → Same (loop kvs) (each_of (lookup a kvs) (lookup b kvs))
  each_field-Same [] u = unfold each_field lookup in Same-id
  each_field-Same ((k, v) ∷ kvs) (new, u) =
      let rest = each_field-Same kvs u in
      elim (Bool-cases (bytes_eq k a)) [
        | inl is_a ↦
            first_member k v kvs (some v) (lookup b kvs) (lookup_hit a k v kvs is_a)
              (lookup_miss b k v kvs (differ k is_a))
              (Same-compose (at_a k v is_a)
                (subst (λ o. Same (loop kvs) (each_of o (lookup b kvs))) (new a is_a) rest))
        | inr not_a ↦ elim (Bool-cases (bytes_eq k b)) [
          | inl is_b ↦
              first_member k v kvs (lookup a kvs) (some v) (lookup_miss a k v kvs not_a)
                (lookup_hit b k v kvs is_b)
                (Same-swap (at_b k v is_b)
                  (subst (λ o. Same (loop kvs) (each_of (lookup a kvs) o)) (new b is_b) rest))
          | inr not_b ↦
              first_member k v kvs (lookup a kvs) (lookup b kvs) (lookup_miss a k v kvs not_a)
                (lookup_miss b k v kvs not_b) (Same-compose (else_ k v not_a not_b) rest)
        ]
      ]
