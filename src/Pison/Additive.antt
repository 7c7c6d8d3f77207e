-- ===== src/Pison/Additive.antt =====
-- src/pison_engine.cpp: what a record adds to the sink, whatever Pison makes of it.
use jsonstreambench.Prelude.{
  ℕ, zero, suc, refl, List, Option, inl, inr, none, some, arith, Bytes, get_or, visit, Bool-cases,
  Option-cases,
}
use jsonstreambench.Extraction.{Extraction, no_extraction, normalize, hash, is_quoted, trim_token}
use jsonstreambench.Extraction.Sum.{Adds, id-Adds, compose-Adds, canonical-Adds, feed-Adds}
use jsonstreambench.QueryId.{QueryId}
use jsonstreambench.Pool.Total.{range}
use jsonstreambench.Sliced.Pieces.{visit-Adds}
use jsonstreambench.Loaders.{RecordTable}
use jsonstreambench.Pison.{
  Workload, structure, query, decode, take_value, feed_decoded, decode_string,
}
use jsonstreambench.Pison.Queries.{run_query}
use jsonstreambench.Pison.Stream.{
  PisonApi, count_match, use_bitmap, do_record, record_at, records_from,
}

count_match-Adds : Adds count_match 0 1
unfolding count_match
count_match-Adds = record {
  sum = λ e. omega arith;
  matches = λ e. omega arith;
  word = λ e h. record { sum = h.sum; matches = omega arith };
  quiet = λ e h. h;
  limit = λ e. refl;
}

module _ (api : PisonApi) where
  feed_decoded-Adds : (v : Bytes) → (s : ℕ) × (m : ℕ) × Adds (feed_decoded api.number v) s m
  unfolding feed_decoded
  feed_decoded-Adds v = elim (Bool-cases (is_quoted (trim_token v))) [
    | inl quoted ↦ rw (quoted, feed_decoded) (_, _, feed-Adds (decode_string (trim_token v)))
    | inr bare ↦ elim (Option-cases (api.number (trim_token v))) [
      | inl missing ↦ rw (bare, missing, feed_decoded) (_, _, feed-Adds (trim_token v))
      | inr (rendered, found) ↦ rw (bare, found, feed_decoded) (_, _, feed-Adds rendered)
    ]
  ]

  take_value-Adds :
      (w : Workload) (v : Bytes) → (s : ℕ) × (m : ℕ) × Adds (take_value api.number w v) s m
  unfolding take_value
  take_value-Adds decode v = feed_decoded-Adds v
  take_value-Adds structure v = (hash (normalize v), 1, feed-Adds v)
  take_value-Adds query v = (hash (normalize v), 1, feed-Adds v)

  values-Adds :
      (w : Workload) (vs : List Bytes)
      → (s : ℕ) × (m : ℕ) × Adds (visit (take_value api.number w) vs) s m
  values-Adds w vs = (
    _,
    _,
    visit-Adds (take_value api.number w) (λ v. (take_value api.number w v no_extraction).sum)
        (λ v. (take_value api.number w v no_extraction).matches)
        (λ v. canonical-Adds (take_value-Adds w v).2) vs,
  )

  queried-Adds :
      (w : Workload) (values : api.iterator.State → List Bytes × api.iterator.State)
      (bm : api.Bitmap) (iter : Option api.iterator.State)
      → (s : ℕ) × (m : ℕ) × Adds
          (λ out. elim iter [
            | none ↦ out
            | some it ↦ visit (take_value api.number w) (values it).0 out
          ])
          s
          m
  queried-Adds w values bm none = (0, 0, id-Adds)
  queried-Adds w values bm (some it) = values-Adds w (values it).0

  use_bitmap-Adds :
      (w : Workload) (values : api.iterator.State → List Bytes × api.iterator.State)
      (bm : api.Bitmap)
      → (s : ℕ) × (m : ℕ) × Adds (use_bitmap api w values bm) s m
  unfolding use_bitmap
  use_bitmap-Adds structure values bm = (0, 1, count_match-Adds)
  use_bitmap-Adds query values bm = queried-Adds query values bm (api.get_iterator bm)
  use_bitmap-Adds decode values bm = queried-Adds decode values bm (api.get_iterator bm)

  constructed-Adds :
      (w : Workload) (values : api.iterator.State → List Bytes × api.iterator.State)
      (built : Option api.Bitmap)
      → (s : ℕ) × (m : ℕ) × Adds
          (λ out. elim built [ none ↦ out | some bm ↦ use_bitmap api w values bm out ])
          s
          m
  constructed-Adds w values none = (0, 0, id-Adds)
  constructed-Adds w values (some bm) = use_bitmap-Adds w values bm

  module _ (text : Bytes) (table : RecordTable) (q : QueryId) (w : Workload) (levels : ℕ) where
    abbrev pub at : ℕ → Extraction → Extraction
    at = record_at api text table q w levels

    abbrev pub sum_at : ℕ → ℕ
    sum_at i = (at i no_extraction).sum

    abbrev pub matches_at : ℕ → ℕ
    matches_at i = (at i no_extraction).matches

    record_at-some : (i : ℕ) → (s : ℕ) × (m : ℕ) × Adds (at i) s m
    unfolding record_at do_record
    record_at-some i =
        constructed-Adds w (run_query api.iterator q)
          (api.construct text (get_or table.offset i 0) (get_or table.lengths i 0) 1 levels)

    record_at-Adds : (i : ℕ) → Adds (at i) (sum_at i) (matches_at i)
    record_at-Adds i = canonical-Adds (record_at-some i).2

    pub records_from-Adds :
        (i k : ℕ)
        → Adds
            (records_from api text table q w levels i k)
            (range sum_at i k)
            (range matches_at i k)
    unfolding records_from range
    records_from-Adds i zero = id-Adds
    records_from-Adds i (suc k) = compose-Adds (record_at-Adds i) (records_from-Adds (suc i) k)
