-- ===== src/QueryId/Names.antt =====
-- src/queries.cpp: the names of the queries.
use jsonstreambench.Prelude.{[], ◌∷◌, true, ◌≡◌, ◌⊎◌, refl, some, Bytes, codes, arith}
use jsonstreambench.QueryId.{
  QueryId, twitter, bestbuy, google_map, bytes_eq, query_name, query_from_name, contains,
  query_from_path,
}

pub bytes_eq_sound : (s t : Bytes) → bytes_eq s t ≡ true → s ≡ t
unfolding bytes_eq
bytes_eq_sound [] [] h = refl
bytes_eq_sound [] (d ∷ t) h = cc
bytes_eq_sound (c ∷ s) [] h = cc
bytes_eq_sound (c ∷ s) (d ∷ t) h = ground (arith, bytes_eq_sound s t)

-- The name of a query is read back.
pub query_from_name-query_name : (q : QueryId) → query_from_name (query_name q) ≡ some q
unfolding query_from_name query_name bytes_eq
query_from_name-query_name twitter = refl
query_from_name-query_name q = refl

-- A text that names a query is the name of that query, or `google` for `google_map`.
pub query_name_of_query_from_name :
    (s : Bytes) (q : QueryId)
    → query_from_name s ≡ some q
    → (s ≡ query_name q) ⊎ ((s ≡ codes "google") × (q ≡ google_map))
unfolding query_from_name query_name
query_name_of_query_from_name s q h = ground (
  arith,
  bytes_eq_sound s (codes "twitter"),
  bytes_eq_sound s (codes "bestbuy"),
  bytes_eq_sound s (codes "google_map"),
  bytes_eq_sound s (codes "google"),
  bytes_eq_sound s (codes "nspl"),
  bytes_eq_sound s (codes "walmart"),
  bytes_eq_sound s (codes "wiki"),
  bytes_eq_sound s (codes "openalex"),
)

-- A query is guessed from a path only if the path holds the name of the query, or the directory
-- name of its corpus.
pub query_from_path-contains :
    (path : Bytes) (q : QueryId)
    → query_from_path path ≡ some q
    → (contains path (query_name q) ≡ true)
      ⊎ ((contains path (codes "/bb/") ≡ true) × (q ≡ bestbuy)
          ⊎ (contains path (codes "/gmp/") ≡ true) × (q ≡ google_map))
unfolding query_from_path query_from_name query_name bytes_eq
query_from_path-contains path q h = ground arith
