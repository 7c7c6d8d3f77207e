-- ===== src/Pison/Queries.antt =====
-- src/pison_engine.cpp: the queries over Pison's bitmap iterator, which is a record of parameters that
-- pass its state on. The sink is handed to `take` and to nothing else, so a query is modelled as the
-- values that it takes, in order, and the state that it leaves.
use jsonstreambench.Prelude.{
  ℕ, zero, suc, Bool, false, List, [], ◌∷◌, ◌++◌, Option, none, some, Bytes, codes, if◌then◌else◌,
}
use jsonstreambench.QueryId.{
  QueryId, twitter, bestbuy, google_map, nspl, walmart, wiki, openalex, bytes_eq,
}

-- `move_to_any` is `moveToKey` of a set of keys, which it takes the key that it finds out of.
-- `rounds` bounds the rounds of a loop over elements or keys: the positions that the iterator has.
pub record BitmapIterator : Type 1 where
  pub State : Type 0
  pub rounds : ℕ
  pub is_object : State → Bool
  pub is_array : State → Bool
  pub move_to_key : State → Bytes → Bool × State
  pub move_to_any : State → List Bytes → Option Bytes × List Bytes × State
  pub move_to_index : State → ℕ → Bool × State
  pub move_next : State → Bool × State
  pub down : State → Bool × State
  pub up : State → State
  pub get_value : State → Option Bytes × State

module _ (api : BitmapIterator) where
  open api use {State, rounds, is_object, is_array, move_to_key, move_to_any, move_to_index}
  open api use {move_next, down, up, get_value}

  -- A piece of a query: the values that it takes, and the state behind it.
  abbrev pub Walk : Type 0
  Walk = State → List Bytes × State

  unfoldable pub stay : Walk
  stay iter = ([], iter)

  unfoldable pub then_ : Walk → Walk → Walk
  then_ f g iter = let (xs, behind) = f iter in let (ys, end) = g behind in (xs ++ ys, end)

  -- `if (move) { … } else { … }`; a move that fails may change the state as well.
  unfoldable pub if_move : (State → Bool × State) → Walk → Walk → Walk
  if_move move f g iter = let (moved, behind) = move iter in if moved then f behind else g behind

  -- `while (move) { … }`.
  unfoldable pub while_move : ℕ → (State → Bool × State) → Walk → Walk
  unfolding stay then_ if_move
  while_move zero move body = stay
  while_move (suc n) move body = if_move move (then_ body (while_move n move body)) stay

  unfoldable pub go_up : Walk
  go_up iter = ([], up iter)

  -- `take`, as far as the iterator is concerned.
  unfoldable pub take : Walk
  take iter =
      let (value, behind) = get_value iter in
      elim value [ none ↦ ([], behind) | some v ↦ (v ∷ [], behind) ]

  -- `isObject() && moveToKey(key)`, and `isArray() && moveNext()`.
  unfoldable pub object_key : Bytes → State → Bool × State
  object_key key iter = if is_object iter then move_to_key iter key else (false, iter)

  unfoldable pub array_next : State → Bool × State
  array_next iter = if is_array iter then move_next iter else (false, iter)

  -- `if (!down()) { continue; } … up();`.
  unfoldable pub inside : Walk → Walk
  unfolding if_move then_ stay go_up
  inside body = if_move down (then_ body go_up) stay

  -- `while ((key = moveToKey(keys)) != nullptr) { … }`.
  unfoldable pub while_key : ℕ → (Bytes → Walk) → List Bytes → Walk
  unfolding then_
  while_key zero body keys iter = ([], iter)
  while_key (suc n) body keys iter =
      let (found, left, behind) = move_to_any iter keys in
      elim found [
        | none ↦ ([], behind)
        | some key ↦ then_ (body key) (while_key n body left) behind
      ]

  unfoldable pub if_object : Walk → Walk
  unfolding stay
  if_object body iter = if is_object iter then body iter else stay iter

  unfoldable pub q_twitter : Walk
  unfolding if_object while_key
  q_twitter = if_object (
      while_key rounds
        (λ key.
          if bytes_eq key (codes "lang")
          then take
          else inside (if_move (object_key (codes "lang")) take stay))
        (codes "user" ∷ codes "lang" ∷ []))

  -- An element of the loop over the indices 1 and 2.
  unfoldable pub bestbuy_element : ℕ → Walk
  unfolding if_move inside
  bestbuy_element i =
      if_move (λ iter. move_to_index iter i) (inside (if_move (object_key (codes "id")) take stay))
        stay

  unfoldable pub q_bestbuy : Walk
  unfolding if_move inside
  q_bestbuy =
      if_move (object_key (codes "categoryPath"))
        (inside (λ iter.
          if is_array iter then then_ (bestbuy_element 1) (bestbuy_element 2) iter else stay iter))
        stay

  -- The loop over the elements of an array, each of them entered and left.
  unfoldable pub each_element : Walk → Walk
  unfolding while_move inside
  each_element body = while_move rounds array_next (inside body)

  -- `if (isObject() && moveToKey(key)) { if (down()) { … up(); } }`.
  unfoldable pub at_key : Bytes → Walk → Walk
  unfolding if_move inside
  at_key key body = if_move (object_key key) (inside body) stay

  unfoldable pub q_google : Walk
  unfolding at_key each_element
  q_google = at_key (codes "routes") (
      each_element (
        at_key (codes "legs") (
          each_element (
            at_key (codes "steps") (
              each_element
                (at_key (codes "distance") (if_move (object_key (codes "text")) take stay)))))))

  unfoldable pub q_nspl : Walk
  unfolding if_move then_
  q_nspl iter =
      if is_array iter
      then then_ (if_move (λ it. move_to_index it 8) take stay)
          (if_move (λ it. move_to_index it 9) take stay) iter
      else stay iter

  unfoldable pub q_walmart : Walk
  unfolding if_object while_key
  q_walmart = if_object (
      while_key rounds
        (λ key.
          if bytes_eq key (codes "name")
          then take
          else inside (if_move (object_key (codes "price")) take stay))
        (codes "bestMarketplacePrice" ∷ codes "name" ∷ []))

  unfoldable pub q_wiki : Walk
  unfolding at_key each_element
  q_wiki = at_key (codes "claims") (
      at_key (codes "P150") (
        each_element
          (at_key (codes "mainsnak") (if_move (object_key (codes "property")) take stay))))

  unfoldable pub q_openalex : Walk
  unfolding if_object while_key
  q_openalex =
      if_object (while_key rounds (λ key. take) (codes "display_name" ∷ codes "works_count" ∷ []))

  unfoldable pub run_query : QueryId → Walk
  run_query twitter = q_twitter
  run_query bestbuy = q_bestbuy
  run_query google_map = q_google
  run_query nspl = q_nspl
  run_query walmart = q_walmart
  run_query wiki = q_wiki
  run_query openalex = q_openalex
