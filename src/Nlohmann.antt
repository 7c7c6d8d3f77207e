-- ===== src/Nlohmann.antt =====
-- src/nlohmann_engine.cpp: nlohmann/json over the documents of the input. What the library provides is a parameter.
use jsonstreambench.Prelude.{
  ℕ, List, [], ◌∷◌, Option, none, some, Bool, ◌||◌, not, Bytes, codes, if◌then◌else◌, leb,
}
use jsonstreambench.Extraction
use jsonstreambench.Extraction.{Extraction, no_extraction}
use jsonstreambench.Extraction.Sum.{if-Adds, feed-Adds, id-Adds, canonical-Adds, Adds}
use jsonstreambench.QueryId.{QueryId}
use jsonstreambench.DomQueries.{feed_number, feed_literal}
use jsonstreambench.DomWorker.{Parser, worker_serial, worker_parallel}
use jsonstreambench.DomWorker.Agree.{IsAdditive}

-- `parse` is the parse that does not throw: `none` is a discarded document.
pub record NlohmannApi : Type 1 where
  pub Val : Type 0
  pub Double : Type 0
  pub parse : Bytes → Option Val
  pub is_object : Val → Bool
  pub find : Val → Bytes → Option Val
  pub is_array : Val → Bool
  pub size : Val → ℕ
  pub at : Val → ℕ → Val
  pub items : Val → List Val
  pub is_string : Val → Bool
  pub get_string : Val → Bytes
  pub is_number : Val → Bool
  pub get_double : Val → Double
  pub is_bool : Val → Bool
  pub get_bool : Val → Bool
  pub is_null : Val → Bool
  pub render : Double → Bytes

module _ (api : NlohmannApi) where
  open api use {Val, parse}
  open api use {is_object, find, is_array, size, at, items}
  open api use {is_string, get_string, is_number, get_double, is_bool, get_bool, is_null, render}

  unfoldable pub obj_get : Option Val → Bytes → Option (Option Val)
  obj_get none key = none
  obj_get (some v) key =
      if not (is_object v) then none else elim (find v key) [ none ↦ none | some u ↦ some (some u) ]

  unfoldable pub arr_at : Option Val → ℕ → Option (Option Val)
  arr_at none i = none
  arr_at (some v) i = if not (is_array v) || leb (size v) i then none else some (some (at v i))

  nodes : List Val → List (Option Val)
  nodes [] = []
  nodes (v ∷ vs) = some v ∷ nodes vs

  -- What `arr_each` calls its function on.
  unfoldable pub elements : Option Val → List (Option Val)
  unfolding nodes
  elements none = []
  elements (some v) = if is_array v then nodes (items v) else []

  unfoldable pub feed : Option Val → Extraction → Extraction
  feed none out = out
  feed (some v) out =
      if is_string v
      then Extraction.feed (get_string v) out
      else if is_number v
      then feed_number render (get_double v) out
      else if is_bool v
      then feed_literal (if get_bool v then codes "true" else codes "false") out
      else if is_null v
      then feed_literal (codes "null") out
      else out

  -- The address of the parsed document is never null.
  abbrev pub parse_root : Bytes → Option (Option Val)
  parse_root line = elim (parse line) [ none ↦ none | some root ↦ some (some root) ]

  abbrev pub nlohmann : Parser
  nlohmann = record {
    traits = record {
      Node = Option Val;
      obj_get = obj_get;
      arr_at = arr_at;
      elements = elements;
      feed = feed;
    };
    parse = λ line. parse_root line;
  }

  unfoldable pub nlohmann_run_serial : Bytes → ℕ → QueryId → Extraction
  nlohmann_run_serial = worker_serial nlohmann

  unfoldable pub nlohmann_run_parallel : Bytes → ℕ → QueryId → ℕ → ℕ → Bool → List ℕ → Extraction
  nlohmann_run_parallel = worker_parallel nlohmann

  -- Each branch of `feed` adds one value or none.
  feed_some-Adds : (v : Val) → (s : ℕ) × (m : ℕ) × Adds (feed (some v)) s m
  unfolding feed feed_number feed_literal
  feed_some-Adds v =
      if-Adds (is_string v) _ _ (_, _, feed-Adds (get_string v))
        (if-Adds (is_number v) _ _ (_, _, feed-Adds (render (get_double v)))
          (if-Adds (is_bool v) _ _
            (_, _, feed-Adds (if get_bool v then codes "true" else codes "false"))
            (if-Adds (is_null v) _ _ (_, _, feed-Adds (codes "null")) (_, _, id-Adds))))

  pub nlohmann-IsAdditive : IsAdditive nlohmann.traits
  nlohmann-IsAdditive none = unfold feed in id-Adds
  nlohmann-IsAdditive (some v) = canonical-Adds (feed_some-Adds v).2
