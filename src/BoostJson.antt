-- ===== src/BoostJson.antt =====
-- src/boost_json_engine.cpp: Boost.JSON over the documents of the input. What the library provides is
-- a parameter.
use jsonstreambench.Prelude.{
  ℕ, List, [], ◌∷◌, Option, none, some, Bool, not, Bytes, codes, if◌then◌else◌, leb,
}
use jsonstreambench.Extraction
use jsonstreambench.Extraction.{Extraction, no_extraction}
use jsonstreambench.Extraction.Sum.{feed-Adds, id-Adds, canonical-Adds, Adds}
use jsonstreambench.QueryId.{QueryId}
use jsonstreambench.DomQueries.{feed_number, feed_literal}
use jsonstreambench.DomWorker.{Parser, worker_serial, worker_parallel}
use jsonstreambench.DomWorker.Agree.{IsAdditive}

-- The tags of `kind`.
pub data Kind : Type 0 where
  null bool_ int64 uint64 double_ string array object : Kind

-- `write` and `finish` give `none` where they set an error; the 64-bit integers are given as the
-- doubles that they are converted to.
pub record BoostApi : Type 1 where
  pub Val : Type 0
  pub State : Type 0
  pub Double : Type 0
  pub write : Bytes → Option State
  pub finish : State → Option State
  pub release : State → Val
  pub is_object : Val → Bool
  pub if_contains : Val → Bytes → Option Val
  pub is_array : Val → Bool
  pub size : Val → ℕ
  pub at : Val → ℕ → Val
  pub items : Val → List Val
  pub kind : Val → Kind
  pub get_string : Val → Bytes
  pub get_double : Val → Double
  pub double_of_int64 : Val → Double
  pub double_of_uint64 : Val → Double
  pub get_bool : Val → Bool
  pub render : Double → Bytes

module _ (api : BoostApi) where
  open api use {
    Val, write, finish, release, is_object, if_contains, is_array, size, at, items, kind,
  }
  open api use {get_string, get_double, double_of_int64, double_of_uint64, get_bool, render}

  unfoldable pub obj_get : Option Val → Bytes → Option (Option Val)
  obj_get none key = none
  obj_get (some v) key =
      if not (is_object v)
      then none
      else elim (if_contains v key) [ none ↦ none | some u ↦ some (some u) ]

  unfoldable pub arr_at : Option Val → ℕ → Option (Option Val)
  arr_at none i = none
  arr_at (some v) i =
      if not (is_array v) then none else if leb (size v) i then none else some (some (at v i))

  nodes : List Val → List (Option Val)
  nodes [] = []
  nodes (v ∷ vs) = some v ∷ nodes vs

  -- What `arr_each` calls its function on.
  unfoldable pub elements : Option Val → List (Option Val)
  unfolding nodes
  elements none = []
  elements (some v) = if is_array v then nodes (items v) else []

  -- The switch over the kind; an object or an array feeds nothing.
  feed_kind : Kind → Val → Extraction → Extraction
  feed_kind string v out = Extraction.feed (get_string v) out
  feed_kind double_ v out = feed_number render (get_double v) out
  feed_kind int64 v out = feed_number render (double_of_int64 v) out
  feed_kind uint64 v out = feed_number render (double_of_uint64 v) out
  feed_kind bool_ v out = feed_literal (if get_bool v then codes "true" else codes "false") out
  feed_kind null v out = feed_literal (codes "null") out
  feed_kind _ v out = out

  unfoldable pub feed : Option Val → Extraction → Extraction
  unfolding feed_kind
  feed none out = out
  feed (some v) out = feed_kind (kind v) v out

  -- A document that is not written or not finished is passed over.
  abbrev pub parse_root : Bytes → Option (Option Val)
  parse_root line = elim (write line) [
    | none ↦ none
    | some s ↦ elim (finish s) [ none ↦ none | some s' ↦ some (some (release s')) ]
  ]

  abbrev pub boost_json : Parser
  boost_json = record {
    traits = record {
      Node = Option Val;
      obj_get = obj_get;
      arr_at = arr_at;
      elements = elements;
      feed = feed;
    };
    parse = λ line. parse_root line;
  }

  unfoldable pub boost_json_run_serial : Bytes → ℕ → QueryId → Extraction
  boost_json_run_serial = worker_serial boost_json

  unfoldable pub boost_json_run_parallel : Bytes → ℕ → QueryId → ℕ → ℕ → Bool → List ℕ → Extraction
  boost_json_run_parallel = worker_parallel boost_json

  feed_kind-Adds :
      (k : Kind) (v : Val)
      → Adds (feed_kind k v) (feed_kind k v no_extraction).sum (feed_kind k v no_extraction).matches
  unfolding feed_kind feed_number feed_literal
  feed_kind-Adds string v = canonical-Adds (feed-Adds (get_string v))
  feed_kind-Adds double_ v = canonical-Adds (feed-Adds (render (get_double v)))
  feed_kind-Adds int64 v = canonical-Adds (feed-Adds (render (double_of_int64 v)))
  feed_kind-Adds uint64 v = canonical-Adds (feed-Adds (render (double_of_uint64 v)))
  feed_kind-Adds bool_ v =
      canonical-Adds (feed-Adds (if get_bool v then codes "true" else codes "false"))
  feed_kind-Adds null v = canonical-Adds (feed-Adds (codes "null"))
  feed_kind-Adds _ v = id-Adds

  pub boost_json-IsAdditive : IsAdditive boost_json.traits
  unfolding feed
  boost_json-IsAdditive none = id-Adds
  boost_json-IsAdditive (some v) = feed_kind-Adds (kind v) v
