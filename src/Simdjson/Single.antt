-- ===== src/Simdjson/Single.antt =====
-- src/simdjson_engine.cpp: the runs over one document.
use jsonstreambench.Prelude.{
  ℕ, ◌≡◌, ◌≢◌, refl, ap, ◌∙◌, sym, Bool, false, List, [], ◌∷◌, none, Bytes, if◌then◌else◌, ◌==◌,
  Bool-cases, inl, inr, take,
}
use jsonstreambench.Extraction.{Extraction, no_extraction}
use jsonstreambench.Extraction.Sum.{Adds, id-Adds, compose-Adds, canonical-Adds, Adds-ext}
use jsonstreambench.QueryId.{QueryId, bulky_array}
use jsonstreambench.Sliced.Serial.{extraction_eq, empty-IsWord}
use jsonstreambench.Sliced.Pieces.{sum_of}
use jsonstreambench.ParseMany.Slices.{doc_values, extracted}
use jsonstreambench.Ondemand.{Outcome, ok, err, Api}
use jsonstreambench.Simdjson.{Workload, structure, query, decode, of_document, of_value, dispatch}
use jsonstreambench.Simdjson.Runs.{
  corpus_format, merge_values, each_item, each_array, bulky_items, bulky_document,
  run_bulky_document, run_serial, extract,
}
use jsonstreambench.Simdjson.Steps.{dispatch-Counted}
use jsonstreambench.Simdjson.Streams.{merge_values-Adds, run_serial_format-extracted}

module _ (api : Api) (q : QueryId) (w : Workload) where
  -- What an item leaves of an empty sink, with its error code.
  abbrev pub item : api.Value → ℕ × Extraction
  item v = dispatch api (of_value api v) q w no_extraction

  -- The items that count: those up to the first error, and what was read of the item that failed.
  unfoldable pub item_parts : List (Outcome api.Value) → List Extraction
  item_parts [] = []
  item_parts (err e ∷ items) = []
  item_parts (ok v ∷ items) =
      let rest = item_parts items in (item v).1 ∷ (if (item v).0 == 0 then rest else [])

  each_item-Adds :
      (items : List (Outcome api.Value))
      → Adds
          (each_item api q w items)
          (sum_of (λ e. e.sum) (item_parts items))
          (sum_of (λ e. e.matches) (item_parts items))
  unfolding each_item item_parts sum_of
  each_item-Adds [] = id-Adds
  each_item-Adds (err e ∷ items) = id-Adds
  each_item-Adds (ok v ∷ items) =
      let c = dispatch-Counted api (of_value api v) q w in
      let here = canonical-Adds c.adds.2 in
      elim (Bool-cases ((item v).0 == 0)) [
        | inl fine ↦ rw fine (
            Adds-ext (λ e. rw (c.code e no_extraction, fine) refl)
              (compose-Adds here (each_item-Adds items)))
        | inr bad ↦
            rw bad
              (Adds-ext (λ e. rw (c.code e no_extraction, bad) refl) (compose-Adds here id-Adds))
      ]

  each_item-parts :
      (items : List (Outcome api.Value))
      → each_item api q w items no_extraction ≡ merge_values (item_parts items) no_extraction
  each_item-parts items =
      let a = each_item-Adds items in
      let b = merge_values-Adds (item_parts items) in
      extraction_eq _ _ (a.word no_extraction empty-IsWord) (b.word no_extraction empty-IsWord)
        (a.sum no_extraction ∙ sym (b.sum no_extraction))
        (a.matches no_extraction ∙ sym (b.matches no_extraction))
        (a.quiet no_extraction refl ∙ sym (b.quiet no_extraction refl))
        (a.limit no_extraction ∙ sym (b.limit no_extraction))

-- Every item is fine and is a document of the stream.
abbrev pub Mirrors :
    (api : Api) → QueryId → Workload → List (Outcome api.Value) → List api.Document → Type 0
Mirrors api q w [] [] = Unit
Mirrors api q w (ok v ∷ items) (doc ∷ docs) =
    (of_value api v ≡ of_document api doc)
    × ((extract api q w doc).0 ≡ 0)
    × Mirrors api q w items docs
Mirrors api q w _ _ = ⊥

item_parts-extracted :
    (api : Api) (q : QueryId) (w : Workload) (items : List (Outcome api.Value))
    (docs : List api.Document)
    → Mirrors api q w items docs
    → item_parts api q w items ≡ extracted (api.iterate_many false) (extract api q w) docs
unfolding item_parts extracted doc_values extract
item_parts-extracted api q w [] [] m = refl
item_parts-extracted api q w (ok v ∷ items) (doc ∷ docs) (same, fine, rest) =
    rw (same, fine)
      (ap (λ t. (dispatch api (of_document api doc) q w no_extraction).1 ∷ t)
        (item_parts-extracted api q w items docs rest))
item_parts-extracted api q w [] (doc ∷ docs) m = absurd m
item_parts-extracted api q w (err e ∷ items) docs m = absurd m
item_parts-extracted api q w (ok v ∷ items) [] m = absurd m

bulky_array-items :
    (api : Api) (q : QueryId) (w : Workload) (doc : api.Document) (items : api.Array)
    → w ≢ structure
    → bulky_items api (of_document api doc) (bulky_array q) ≡ ok items
    → bulky_document api q w (ok doc) ≡ each_item api q w (api.elements items) no_extraction
unfolding bulky_document each_array
bulky_array-items api q structure doc items touched there = absurd (touched refl)
bulky_array-items api q query doc items touched there = rw there refl
bulky_array-items api q decode doc items touched there = rw there refl

-- With a query to run, on a document that parses and whose dominating array is found, the run
-- over one document adds up what its items give, up to the first item that fails, of which what
-- was read before the error counts.
pub run_bulky_document-parts :
    (api : Api) (q : QueryId) (w : Workload) (json : Bytes) (doc : api.Document) (items : api.Array)
    → w ≢ structure
    → api.iterate json ≡ ok doc
    → bulky_items api (of_document api doc) (bulky_array q) ≡ ok items
    → run_bulky_document api json q w
      ≡ merge_values (item_parts api q w (api.elements items)) no_extraction
unfolding run_bulky_document
run_bulky_document-parts api q w json doc items touched parsed there = rw parsed (
    bulky_array-items api q w doc items touched there
    ∙ each_item-parts api q w (api.elements items))

-- The run over one document gives what the serial run over a stream gives without a trace, if a
-- query is run, the items of its dominating array are the documents of the stream, and none of
-- them fails.
pub run_bulky_document-run_serial :
    (api : Api) (q : QueryId) (w : Workload) (json data_ : Bytes) (size batch_bytes : ℕ)
    (have threaded : Bool) (doc : api.Document) (items : api.Array) (docs : List api.Document)
    → w ≢ structure
    → api.iterate json ≡ ok doc
    → bulky_items api (of_document api doc) (bulky_array q) ≡ ok items
    → api.iterate_many threaded (take size data_) batch_bytes (corpus_format have) ≡ (0, docs)
    → Mirrors api q w (api.elements items) docs
    → run_bulky_document api json q w
      ≡ (run_serial api have data_ size q w threaded batch_bytes none 0).0
unfolding run_serial
run_bulky_document-run_serial api q w json data_ size batch_bytes have threaded doc items docs
      touched parsed there streamed same =
    run_bulky_document-parts api q w json doc items touched parsed there
    ∙ ap (λ es. merge_values es no_extraction)
        (item_parts-extracted api q w (api.elements items) docs same)
    ∙ sym (
        run_serial_format-extracted api q w data_ size threaded batch_bytes (corpus_format have)
          none 0
        ∙ rw streamed refl)
