-- ===== src/ParseMany/Slices.antt =====
-- src/parallel_stream.h: what one document and one slice add to the shard of a thread.
use jsonstreambench.Prelude.{
  ℕ, ◌+◌, ◌%◌, ◌≡◌, refl, ap, ◌∙◌, sym, List, [], ◌∷◌, ◌++◌, inl, inr, arith, Bytes, if◌then◌else◌,
  ◌==◌, length, append-nil, append_assoc, visit, u64_mod, Bool-cases,
}
use jsonstreambench.ParseMany.{StreamFormat, Shard, note_error, handle_doc, parse_piece}

module _ {Doc T : Type 0} (iterate_many : Bytes → ℕ → StreamFormat → ℕ × List Doc)
    (extract : Doc → ℕ × T) where
  -- The value that a document gives, if it gives one, and whether it gives an error.
  unfoldable pub doc_values : Doc → List T
  doc_values doc = let (e, value) = extract doc in if e == 0 then value ∷ [] else []

  unfoldable pub doc_errors : Doc → ℕ
  doc_errors doc = let (e, value) = extract doc in if e == 0 then 0 else 1

  -- The same of some documents.
  unfoldable pub extracted : List Doc → List T
  extracted [] = []
  extracted (doc ∷ docs) = doc_values doc ++ extracted docs

  unfoldable pub failed : List Doc → ℕ
  failed [] = 0
  failed (doc ∷ docs) = doc_errors doc + failed docs

  -- The same of a slice: one that the stream parser refuses is an error.
  unfoldable pub piece_values : StreamFormat → Bytes → List T
  piece_values format piece =
      let (e, docs) = iterate_many piece (length piece) format in
      if length piece == 0 then [] else if e == 0 then extracted docs else []

  unfoldable pub piece_errors : StreamFormat → Bytes → ℕ
  piece_errors format piece =
      let (e, docs) = iterate_many piece (length piece) format in
      if length piece == 0 then 0 else if e == 0 then failed docs else 1

  handle_doc-values :
      (doc : Doc) (s : Shard T)
      → (handle_doc iterate_many extract doc s).values ≡ s.values ++ doc_values doc
  unfolding handle_doc doc_values note_error
  handle_doc-values doc s = elim (Bool-cases ((extract doc).0 == 0)) [
    | inl fine ↦ rw (fine, handle_doc) refl
    | inr bad ↦ rw (bad, handle_doc) (sym (append-nil s.values))
  ]

  handle_doc-errors :
      (doc : Doc) (s : Shard T)
      → (handle_doc iterate_many extract doc s).errors % u64_mod
        ≡ (s.errors + doc_errors doc) % u64_mod
  unfolding handle_doc doc_errors note_error
  handle_doc-errors doc s = elim (Bool-cases ((extract doc).0 == 0)) [
    | inl fine ↦ rw (fine, handle_doc) (omega arith)
    | inr bad ↦ rw (bad, handle_doc) (omega arith)
  ]

  visit-values :
      (docs : List Doc) (s : Shard T)
      → (visit (handle_doc iterate_many extract) docs s).values ≡ s.values ++ extracted docs
  unfolding visit extracted
  visit-values [] s = sym (append-nil s.values)
  visit-values (doc ∷ docs) s =
      visit-values docs (handle_doc iterate_many extract doc s)
      ∙ ap (λ t. t ++ extracted docs) (handle_doc-values doc s)
      ∙ append_assoc s.values (doc_values doc) (extracted docs)

  visit-errors :
      (docs : List Doc) (s : Shard T)
      → (visit (handle_doc iterate_many extract) docs s).errors % u64_mod
        ≡ (s.errors + failed docs) % u64_mod
  unfolding visit failed
  visit-errors [] s = omega arith
  visit-errors (doc ∷ docs) s =
      let here = handle_doc-errors doc s in
      let rest = visit-errors docs (handle_doc iterate_many extract doc s) in omega arith

  -- A slice adds its values and its errors to the shard of its thread.
  pub parse_piece-values :
      (format : StreamFormat) (piece : Bytes) (s : Shard T)
      → (parse_piece iterate_many extract format piece s).values
        ≡ s.values ++ piece_values format piece
  unfolding parse_piece piece_values note_error
  parse_piece-values format piece s = elim (Bool-cases (length piece == 0)) [
    | inl nothing ↦ rw (nothing, parse_piece) (sym (append-nil s.values))
    | inr text ↦ elim (Bool-cases ((iterate_many piece (length piece) format).0 == 0)) [
      | inl fine ↦
          rw (text, fine, parse_piece) (visit-values (iterate_many piece (length piece) format).1 s)
      | inr bad ↦ rw (text, bad, parse_piece) (sym (append-nil s.values))
    ]
  ]

  pub parse_piece-errors :
      (format : StreamFormat) (piece : Bytes) (s : Shard T)
      → (parse_piece iterate_many extract format piece s).errors % u64_mod
        ≡ (s.errors + piece_errors format piece) % u64_mod
  unfolding parse_piece piece_errors note_error
  parse_piece-errors format piece s = elim (Bool-cases (length piece == 0)) [
    | inl nothing ↦ rw (nothing, parse_piece) (omega arith)
    | inr text ↦ elim (Bool-cases ((iterate_many piece (length piece) format).0 == 0)) [
      | inl fine ↦
          rw (text, fine, parse_piece) (visit-errors (iterate_many piece (length piece) format).1 s)
      | inr bad ↦ rw (text, bad, parse_piece) (omega arith)
    ]
  ]
