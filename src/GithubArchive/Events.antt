-- ===== src/GithubArchive/Events.antt =====
-- src/cujson_baseline/github_archive.cpp: what the events of a stream add to the sink, and their errors.
use jsonstreambench.Prelude.{
  ℕ, ◌≡◌, ◌≢◌, refl, Bool, true, false, List, [], ◌∷◌, arith, Bytes, codes, ◌==◌, Bool-cases, inl,
  inr,
}
use jsonstreambench.Extraction.{Extraction, no_extraction}
use jsonstreambench.Extraction.Sum.{Adds, id-Adds, compose-Adds, canonical-Adds, Adds-ext}
use jsonstreambench.QueryId.{bytes_eq}
use jsonstreambench.Sliced.Pieces.{sum_of}
use jsonstreambench.ParseMany.Slices.{doc_values, doc_errors, extracted, failed}
use jsonstreambench.Ondemand.{Outcome, ok, err, ◌>>=◌, Api}
use jsonstreambench.Simdjson.{Doc, of_document}
use jsonstreambench.Simdjson.Steps.{Counted}
use jsonstreambench.GithubArchive.{
  fnv1a, add_hash, push_name, push_matching, push_typed, push_repo_name, serial_event,
  serial_events, push_extract,
}

add_hash-Adds : (h : ℕ) → Adds (add_hash h) h 1
unfolding add_hash
add_hash-Adds h = record {
  sum = λ e. omega arith;
  matches = λ e. omega arith;
  word = λ e w. omega arith;
  quiet = λ e w. w;
  limit = λ e. refl;
}

fails : (c : ℕ) → Counted (λ e. (c, e))
fails c = record { code = λ e e'. refl; adds = (0, 0, id-Adds) }

push_name-Counted : (name : Outcome Bytes) → Counted (push_name name)
unfolding push_name
push_name-Counted (err e) = fails e
push_name-Counted (ok name) = record {
  code = λ e e'. refl;
  adds = (_, _, add_hash-Adds (fnv1a name));
}

push_matching-Counted : (push : Bool) (name : Outcome Bytes) → Counted (push_matching push name)
unfolding push_matching
push_matching-Counted true name = push_name-Counted name
push_matching-Counted false name = fails 0

push_typed-Counted : (type name : Outcome Bytes) → Counted (push_typed type name)
unfolding push_typed
push_typed-Counted (err e) name = fails e
push_typed-Counted (ok type) name = push_matching-Counted (bytes_eq type (codes "PushEvent")) name

module _ (api : Api) where
  abbrev push : api.Document → Extraction → ℕ × Extraction
  push doc = push_repo_name api (of_document api doc)

  pub push-Counted : (doc : Doc api) → Counted (push_repo_name api doc)
  unfolding push_repo_name
  push-Counted doc =
      push_typed-Counted (doc.find (codes "type") >>= api.get_string) (
        doc.find (codes "repo") >>= (λ repo. api.value_find repo (codes "name")) >>= api.get_string)

  -- A result that is an error hands it on.
  abbrev pub Propagates : Type 0
  Propagates =
      (doc : api.Document) (key : Bytes)
      → api.document_error doc ≢ 0
      → api.document_find doc key ≡ err (api.document_error doc)

  -- The error code of an event, whether the loop or the query sees the error.
  serial_event-push :
      Propagates → (doc : api.Document) (e : Extraction) → serial_event api doc e ≡ push doc e
  unfolding serial_event push_repo_name push_typed
  serial_event-push hands_on doc e = elim (Bool-cases (api.document_error doc == 0)) [
    | inl fine ↦ rw fine refl
    | inr bad ↦ rw (bad, hands_on doc (codes "type") (ground arith)) refl
  ]

  abbrev pub all_found : List api.Document → List Extraction
  all_found = extracted (api.iterate_many false) (push_extract api)

  abbrev pub errors_of : List api.Document → ℕ
  errors_of = failed (api.iterate_many false) (push_extract api)

  pub serial_events-Adds :
      Propagates
      → (docs : List api.Document) → errors_of docs ≡ 0
      → Adds
          (serial_events api docs)
          (sum_of (λ e. e.sum) (all_found docs))
          (sum_of (λ e. e.matches) (all_found docs))
  unfolding serial_events extracted failed doc_values doc_errors push_extract sum_of
  serial_events-Adds hands_on [] h = id-Adds
  serial_events-Adds hands_on (doc ∷ docs) h =
      let c = push-Counted (of_document api doc) in
      let here = canonical-Adds c.adds.2 in
      let fine : ((push doc no_extraction).0 == 0) ≡ true = ground arith in
      let rest = serial_events-Adds hands_on docs (ground arith) in
      rw fine (
        Adds-ext (λ e. rw (serial_event-push hands_on doc e, c.code e no_extraction, fine) refl)
          (compose-Adds here rest))

  pub serial_events_failed :
      Propagates
      → (docs : List api.Document) (e : Extraction) → errors_of docs ≢ 0
      → serial_events api docs e ≡ no_extraction
  unfolding serial_events failed doc_errors push_extract
  serial_events_failed hands_on [] e h = absurd (h refl)
  serial_events_failed hands_on (doc ∷ docs) e h =
      let c = push-Counted (of_document api doc) in
      rw (serial_event-push hands_on doc e, c.code e no_extraction)
        (elim (Bool-cases ((push doc no_extraction).0 == 0)) [
          | inl fine ↦
              rw fine
                (serial_events_failed hands_on docs (push doc e).1 (λ z. h (rw fine (omega arith))))
          | inr bad ↦ rw bad refl
        ])
