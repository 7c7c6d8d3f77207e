-- ===== src/QueryId.antt =====
-- src/common.h, `query_id`, and src/queries.cpp: the names of the queries, the bitmap levels that
-- Pison needs for them, and the guess from a path.
pub mod Names
use jsonstreambench.Prelude.{
  ℕ, List, [], ◌∷◌, Bool, true, false, ◌&&◌, ◌||◌, Option, none, some, Bytes, codes, if◌then◌else◌,
  ◌==◌,
}

pub data QueryId : Type 0 where
  twitter bestbuy google_map nspl walmart wiki openalex : QueryId

-- Equality of texts.
unfoldable pub bytes_eq : Bytes → Bytes → Bool
bytes_eq [] [] = true
bytes_eq (c ∷ s) (d ∷ t) = c == d && bytes_eq s t
bytes_eq _ _ = false

unfoldable pub query_name : QueryId → Bytes
query_name twitter = codes "twitter"
query_name bestbuy = codes "bestbuy"
query_name google_map = codes "google_map"
query_name nspl = codes "nspl"
query_name walmart = codes "walmart"
query_name wiki = codes "wiki"
query_name openalex = codes "openalex"

unfoldable pub query_from_name : Bytes → Option QueryId
query_from_name s =
    if bytes_eq s (codes "twitter")
    then some twitter
    else if bytes_eq s (codes "bestbuy")
    then some bestbuy
    else if bytes_eq s (codes "google_map") || bytes_eq s (codes "google")
    then some google_map
    else if bytes_eq s (codes "nspl")
    then some nspl
    else if bytes_eq s (codes "walmart")
    then some walmart
    else if bytes_eq s (codes "wiki")
    then some wiki
    else if bytes_eq s (codes "openalex")
    then some openalex
    else none

unfoldable pub query_levels : QueryId → ℕ
query_levels twitter = 2
query_levels bestbuy = 3
query_levels google_map = 8
query_levels nspl = 1
query_levels walmart = 2
query_levels wiki = 5
query_levels openalex = 1

-- `nullptr` is `none`.
unfoldable pub bulky_array : QueryId → Option Bytes
bulky_array twitter = some (codes "tweets")
bulky_array bestbuy = some (codes "products")
bulky_array google_map = some (codes "items")
bulky_array nspl = some (codes "data")
bulky_array walmart = some (codes "items")
bulky_array wiki = some (codes "items")
bulky_array openalex = none

starts_with : Bytes → Bytes → Bool
starts_with s [] = true
starts_with [] (d ∷ t) = false
starts_with (c ∷ s) (d ∷ t) = c == d && starts_with s t

-- `path.find(n) != std::string::npos`.
unfoldable pub contains : Bytes → Bytes → Bool
unfolding starts_with
contains [] t = starts_with [] t
contains (c ∷ s) t = starts_with (c ∷ s) t || contains s t

-- The array `names`.
abbrev pub path_names : List Bytes
path_names =
    codes "google_map"
    ∷ codes "bestbuy"
    ∷ codes "twitter"
    ∷ codes "walmart"
    ∷ codes "wiki"
    ∷ codes "nspl"
    ∷ codes "openalex"
    ∷ []

-- The first of the names that the path holds decides; `rest` is what follows the loop.
from_names : List Bytes → Bytes → Option QueryId → Option QueryId
from_names [] path rest = rest
from_names (n ∷ ns) path rest =
    if contains path n then query_from_name n else from_names ns path rest

unfoldable pub query_from_path : Bytes → Option QueryId
unfolding from_names
query_from_path path = from_names path_names path (
    if contains path (codes "/bb/")
    then some bestbuy
    else if contains path (codes "/gmp/")
    then some google_map
    else none)
