-- ===== src/Yyjson.antt =====
-- src/yyjson_engine.cpp: yyjson over the documents of the input. What yyjson provides is a
-- parameter.
use jsonstreambench.Prelude.{
  ℕ, List, [], ◌∷◌, Option, none, some, Bool, Bytes, codes, if◌then◌else◌,
}
use jsonstreambench.Extraction
use jsonstreambench.Extraction.{Extraction, no_extraction}
use jsonstreambench.Extraction.Sum.{feed-Adds, id-Adds, canonical-Adds, Adds}
use jsonstreambench.QueryId.{QueryId}
use jsonstreambench.DomQueries.{feed_number, feed_literal}
use jsonstreambench.DomWorker.{Parser, worker_serial, worker_parallel}
use jsonstreambench.DomWorker.Agree.{IsAdditive}

-- The tags of `yyjson_get_type`.
pub data YyType : Type 0 where
  str num bool null raw arr obj : YyType

-- A pointer that may be null is an `Option`; `read` is `yyjson_read_opts`, and `render` is
-- `snprintf` with `%.17g`.
pub record YyApi : Type 1 where
  pub Val : Type 0
  pub Doc : Type 0
  pub Double : Type 0
  pub read : Bytes → Option Doc
  pub root : Doc → Option Val
  pub is_obj : Val → Bool
  pub is_arr : Val → Bool
  pub obj_getn : Val → Bytes → Option Val
  pub arr_get : Val → ℕ → Option Val
  pub arr_items : Val → List Val
  pub get_type : Val → YyType
  pub get_str : Val → Bytes
  pub get_num : Val → Double
  pub get_bool : Val → Bool
  pub render : Double → Bytes

-- `out = p; return out != nullptr`.
abbrev pub found : {A : Type 0} → Option A → Option (Option A)
found none = none
found (some v) = some (some v)

module _ (api : YyApi) where
  open api use {Val, Doc, read, root, is_obj, is_arr, obj_getn, arr_get, arr_items, get_type}
  open api use {get_str, get_num, get_bool, render}

  unfoldable pub obj_get : Option Val → Bytes → Option (Option Val)
  obj_get none key = none
  obj_get (some v) key = if is_obj v then found (obj_getn v key) else none

  unfoldable pub arr_at : Option Val → ℕ → Option (Option Val)
  arr_at none i = none
  arr_at (some v) i = if is_arr v then found (arr_get v i) else none

  nodes : List Val → List (Option Val)
  nodes [] = []
  nodes (v ∷ vs) = some v ∷ nodes vs

  -- What `arr_each` calls its function on.
  unfoldable pub elements : Option Val → List (Option Val)
  unfolding nodes
  elements none = []
  elements (some v) = if is_arr v then nodes (arr_items v) else []

  -- The switch over the type; an object or an array feeds nothing.
  feed_typed : YyType → Val → Extraction → Extraction
  feed_typed str v out = Extraction.feed (get_str v) out
  feed_typed num v out = feed_number render (get_num v) out
  feed_typed bool v out = feed_literal (if get_bool v then codes "true" else codes "false") out
  feed_typed null v out = feed_literal (codes "null") out
  feed_typed _ v out = out

  unfoldable pub feed : Option Val → Extraction → Extraction
  unfolding feed_typed
  feed none out = out
  feed (some v) out = feed_typed (get_type v) v out

  abbrev pub read_root : Option Doc → Option (Option Val)
  read_root none = none
  read_root (some doc) = some (root doc)

  abbrev pub yyjson : Parser
  yyjson = record {
    traits = record {
      Node = Option Val;
      obj_get = obj_get;
      arr_at = arr_at;
      elements = elements;
      feed = feed;
    };
    parse = λ line. read_root (read line);
  }

  unfoldable pub yyjson_run_serial : Bytes → ℕ → QueryId → Extraction
  yyjson_run_serial = worker_serial yyjson

  unfoldable pub yyjson_run_parallel : Bytes → ℕ → QueryId → ℕ → ℕ → Bool → List ℕ → Extraction
  yyjson_run_parallel = worker_parallel yyjson

  feed_typed-Adds :
      (t : YyType) (v : Val)
      → Adds
          (feed_typed t v)
          (feed_typed t v no_extraction).sum
          (feed_typed t v no_extraction).matches
  unfolding feed_typed feed_number feed_literal
  feed_typed-Adds str v = canonical-Adds (feed-Adds (get_str v))
  feed_typed-Adds num v = canonical-Adds (feed-Adds (render (get_num v)))
  feed_typed-Adds bool v =
      canonical-Adds (feed-Adds (if get_bool v then codes "true" else codes "false"))
  feed_typed-Adds null v = canonical-Adds (feed-Adds (codes "null"))
  feed_typed-Adds _ v = id-Adds

  pub yyjson-IsAdditive : IsAdditive yyjson.traits
  unfolding feed
  yyjson-IsAdditive none = id-Adds
  yyjson-IsAdditive (some v) = feed_typed-Adds (get_type v) v
