-- ===== src/Simdjson/Streams.antt =====
-- src/simdjson_engine.cpp: the runs over a stream, serial and parallel.
use jsonstreambench.Prelude.{
  ℕ, ◌≡◌, refl, ap, ◌∙◌, sym, Bool, false, List, [], ◌∷◌, ◌++◌, Option, arith, Bytes, if◌then◌else◌,
  ◌==◌, Bool-cases, inl, inr, take, visit, visit-append,
}
use jsonstreambench.Extraction.{Extraction, no_extraction, merge}
use jsonstreambench.Extraction.Sum.{Adds, merge-Adds, IsWord}
use jsonstreambench.QueryId.{QueryId}
use jsonstreambench.Sliced.Serial.{empty-IsWord}
use jsonstreambench.Sliced.Pieces.{sum_of, visit-Adds}
use jsonstreambench.ParseMany.{StreamFormat}
use jsonstreambench.ParseMany.Slices.{doc_values, extracted}
use jsonstreambench.Ondemand.{Api}
use jsonstreambench.Simdjson.{Workload, of_document, dispatch}
use jsonstreambench.Simdjson.Runs.{
  merge_values, merge_result, stream_document, run_serial_format, extract,
}
use jsonstreambench.Simdjson.Steps.{dispatch-Counted}

merge_ext : (t a b : Extraction) → a.sum ≡ b.sum → a.matches ≡ b.matches → merge t a ≡ merge t b
unfolding merge
merge_ext t a b hs hm = rw (hs, hm) refl

pub merge_values-append :
    (es fs : List Extraction) (t : Extraction)
    → merge_values (es ++ fs) t ≡ merge_values fs (merge_values es t)
unfolding merge_values
merge_values-append es fs t = visit-append _ es fs t

pub merge_values-Adds :
    (es : List Extraction)
    → Adds (merge_values es) (sum_of (λ e. e.sum) es) (sum_of (λ e. e.matches) es)
unfolding merge_values
merge_values-Adds es = visit-Adds (λ e t. merge t e) (λ e. e.sum) (λ e. e.matches) merge-Adds es

pub merge_result-Adds :
    (shards : List (List Extraction))
    → Adds
        (merge_result shards)
        (sum_of (sum_of (λ e. e.sum)) shards)
        (sum_of (sum_of (λ e. e.matches)) shards)
unfolding merge_result
merge_result-Adds shards = visit-Adds merge_values _ _ merge_values-Adds shards

module _ (api : Api) (q : QueryId) (w : Workload) where
  -- What a document leaves of an empty sink, if it does not fail.
  abbrev doc_found : api.Document → List Extraction
  doc_found = doc_values (api.iterate_many false) (extract api q w)

  abbrev all_found : List api.Document → List Extraction
  all_found = extracted (api.iterate_many false) (extract api q w)

  -- A trace changes neither the error code nor the sums of a document.
  traced :
      (doc : api.Document) (trace : Option (List Bytes)) (limit : ℕ)
      → let run = dispatch api (of_document api doc) q w in
        let one = run (record no_extraction { trace = trace; trace_limit = limit }) in
        (one.0 ≡ (run no_extraction).0)
        × (one.1.sum ≡ (run no_extraction).1.sum)
        × (one.1.matches ≡ (run no_extraction).1.matches)
  traced doc trace limit =
      let c = dispatch-Counted api (of_document api doc) q w in
      let a = c.adds.2 in
      let e : Extraction = record no_extraction { trace = trace; trace_limit = limit } in
      let we : IsWord e = omega arith in
      let w1 = a.word e we in
      let w0 = a.word no_extraction empty-IsWord in
      (
        c.code e no_extraction,
        omega (arith, a.sum e, a.sum no_extraction, w1, w0),
        omega (arith, a.matches e, a.matches no_extraction, w1, w0),
      )

  stream_document-doc_found :
      (doc : api.Document) (limit : ℕ) (total : Extraction) (trace : Option (List Bytes))
      → (stream_document api q w limit doc (total, trace)).0 ≡ merge_values (doc_found doc) total
  unfolding stream_document merge_values doc_values extract visit
  stream_document-doc_found doc limit total trace =
      let (code, sum, matches) = traced doc trace limit in
      let r = dispatch api (of_document api doc) q w no_extraction in
      rw code (elim (Bool-cases (r.0 == 0)) [
        | inl fine ↦ rw fine (merge_ext total _ _ sum matches)
        | inr bad ↦ rw bad refl
      ])

  visit-doc_found :
      (docs : List api.Document) (limit : ℕ) (s : Extraction × Option (List Bytes))
      → (visit (stream_document api q w limit) docs s).0 ≡ merge_values (all_found docs) s.0
  unfolding visit extracted
  visit-doc_found [] limit s = unfold merge_values visit in refl
  visit-doc_found (doc ∷ docs) limit (total, trace) =
      visit-doc_found docs limit (stream_document api q w limit doc (total, trace))
      ∙ ap (merge_values (all_found docs)) (stream_document-doc_found doc limit total trace)
      ∙ sym (merge_values-append (doc_found doc) (all_found docs) total)

  -- The total of a serial run.
  pub run_serial_format-extracted :
      (data_ : Bytes) (size : ℕ) (threaded : Bool) (batch_bytes : ℕ) (format : StreamFormat)
      (trace : Option (List Bytes)) (limit : ℕ)
      → let (e, docs) = api.iterate_many threaded (take size data_) batch_bytes format in
        (run_serial_format api data_ size q w threaded batch_bytes format trace limit).0 ≡ (
          if e == 0
          then merge_values
              (extracted (api.iterate_many false) (extract api q w) docs)
              no_extraction
          else no_extraction)
  unfolding run_serial_format
  run_serial_format-extracted data_ size threaded batch_bytes format trace limit =
      let r = api.iterate_many threaded (take size data_) batch_bytes format in
      elim (Bool-cases (r.0 == 0)) [
        | inl fine ↦ rw fine (visit-doc_found r.1 limit (no_extraction, trace))
        | inr bad ↦ rw bad refl
      ]
