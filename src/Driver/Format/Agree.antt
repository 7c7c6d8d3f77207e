-- ===== src/Driver/Format/Agree.antt =====
-- src/main.cpp: what a study of the formats that goes on has compared.
use jsonstreambench.Prelude.{
  ℕ, ◌≤◌, ◌<◌, ◌≡◌, refl, ◌∙◌, sym, Bool, true, false, List, [], ◌∷◌, ◌++◌, none, some, Bytes,
  arith, length, take, replicate, ◌==◌, Bool-cases, Option-cases, inl, inr,
}
use jsonstreambench.Extraction.{Extraction}
use jsonstreambench.QueryId.{QueryId}
use jsonstreambench.Loaders.{u32_mod}
use jsonstreambench.Loaders.Records.{records}
use jsonstreambench.ParseMany.{newline_delimited, whitespace_delimited, comma_delimited}
use jsonstreambench.Ondemand.{Api}
use jsonstreambench.Driver.{agrees}
use jsonstreambench.Driver.Exit.{Agree, agrees-Agree}
use jsonstreambench.Driver.Format.{
  CommaText, Encoding, encodings, is_canonical, comma_text, format_run, each_encoding,
  format_passes, study_text, format_study,
}
use jsonstreambench.Driver.Format.Records.{join, comma_text-records}

-- The three forms of a corpus of `size` bytes with the records `rs`.
abbrev pub newline_form : Bytes → ℕ → Encoding
newline_form data_ size = record { bytes = data_; size = size; format = newline_delimited }

abbrev pub whitespace_form : Bytes → ℕ → Encoding
whitespace_form data_ size = record { bytes = data_; size = size; format = whitespace_delimited }

abbrev pub comma_form : Bytes → Encoding
comma_form joined = record {
  bytes = joined ++ replicate 64 0;
  size = length joined;
  format = comma_delimited;
}

module _ (api : Api) (q : QueryId) (batch : ℕ) where
  -- What the serial run over the lines finds, every other run finds too.
  pub record FormsAgree (data_ : Bytes) (size : ℕ) (joined : Bytes) : Type 0 where
    pub whitespace :
        (threaded : Bool)
        → Agree
            (format_run api q batch threaded (whitespace_form data_ size))
            (format_run api q batch false (newline_form data_ size))
    pub comma :
        (threaded : Bool)
        → Agree
            (format_run api q batch threaded (comma_form joined))
            (format_run api q batch false (newline_form data_ size))
    pub threads :
        Agree
          (format_run api q batch true (newline_form data_ size))
          (format_run api q batch false (newline_form data_ size))

  by_threads :
      (e : Extraction) (enc : Encoding)
      → Agree (format_run api q batch false enc) e
      → Agree (format_run api q batch true enc) e
      → (threaded : Bool) → Agree (format_run api q batch threaded enc) e
  by_threads e enc one two false = one
  by_threads e enc one two true = two

  -- A form that is compared agrees, and the loop goes on with the next.
  each_encoding_agrees :
      (threaded : Bool) (enc : Encoding) (encs : List Encoding) (canonical got : Extraction)
      → is_canonical threaded enc.format ≡ false
      → each_encoding api q batch threaded (enc ∷ encs) canonical ≡ some got
      → Agree (format_run api q batch threaded enc) canonical
        × (each_encoding api q batch threaded encs canonical ≡ some got)
  unfolding each_encoding
  each_encoding_agrees threaded enc encs canonical got other h =
      let e = format_run api q batch threaded enc in
      elim (Bool-cases (agrees e canonical)) [
        | inl same ↦ (agrees-Agree e canonical same, rw (other, same) at h)
        | inr differs ↦ absurd (ground (arith, rw (other, differs) at h))
      ]

  format_passes-FormsAgree :
      (data_ : Bytes) (size : ℕ) (joined : Bytes) (got : Extraction)
      → format_passes api q batch (encodings data_ size joined) ≡ some got
      → FormsAgree data_ size joined
  unfolding format_passes encodings each_encoding is_canonical
  format_passes-FormsAgree data_ size joined got h =
      let lines_ = newline_form data_ size in
      let spaces = whitespace_form data_ size in
      let commas = comma_form joined in
      let base = format_run api q batch false lines_ in
      let both : List Encoding = lines_ ∷ spaces ∷ commas ∷ [] in
      let passes : (elim (each_encoding api q batch false (spaces ∷ commas ∷ []) base) [
        | none ↦ none
        | some c ↦ each_encoding api q batch true both c
      ])
          ≡ some got =
        h in
      elim (Option-cases (each_encoding api q batch false (spaces ∷ commas ∷ []) base)) [
        | inl missing ↦ absurd (ground (arith, rw missing at passes))
        | inr (c, first) ↦
            let (spaces_serial, left) =
              each_encoding_agrees false spaces (commas ∷ []) base c refl first in
            let (commas_serial, done) = each_encoding_agrees false commas [] base c refl left in
            let same : c ≡ base = ground (arith, done) in
            let second : each_encoding api q batch true both base ≡ some got =
              rw (first, same) at passes in
            let (lines_both, after) =
              each_encoding_agrees true lines_ (spaces ∷ commas ∷ []) base got refl second in
            let (spaces_both, behind) =
              each_encoding_agrees true spaces (commas ∷ []) base got refl after in
            let (commas_both, over) = each_encoding_agrees true commas [] base got refl behind in
            record {
              whitespace = by_threads base spaces spaces_serial spaces_both;
              comma = by_threads base commas commas_serial commas_both;
              threads = lines_both;
            }
      ]

  format_study-none :
      (data_ : Bytes) (size count : ℕ)
      → format_study api q batch data_ size count ≡ none
      → (comma : CommaText) × (got : Extraction) × (comma_text data_ size ≡ some comma)
        × (comma.docs ≡ count)
        × (format_passes api q batch (encodings data_ size comma.text) ≡ some got)
  unfolding format_study study_text
  format_study-none data_ size count h =
      let study : (elim (comma_text data_ size) [
        | none ↦ some 2
        | some comma ↦ study_text api q batch data_ size count comma
      ])
          ≡ none =
        h in
      elim (Option-cases (comma_text data_ size)) [
        | inl missing ↦ absurd (ground (arith, rw missing at study))
        | inr (comma, given) ↦ elim (Bool-cases (comma.docs == count)) [
          | inr other ↦ absurd (ground (arith, rw (given, other) at study))
          | inl same ↦
              elim (Option-cases (format_passes api q batch (encodings data_ size comma.text))) [
                | inl differ ↦ absurd (ground (arith, rw (given, same, differ) at study))
                | inr (got, passed) ↦ (comma, got, given, ground arith, passed)
              ]
        ]
      ]

-- On a corpus shorter than 4 GiB, a study of the formats that goes on has found as many records
-- as the table holds, and the serial run over the lines, the runs that split at white space, the
-- runs over the records joined by commas, serial and threaded, and the threaded run over the
-- lines have one count and one hash.
pub format_study-FormsAgree :
    (api : Api) (q : QueryId) (batch : ℕ) (data_ : Bytes) (size count : ℕ)
    → size ≤ length data_
    → size < u32_mod
    → format_study api q batch data_ size count ≡ none
    → (count ≡ length (records (take size data_)))
      × FormsAgree api q batch data_ size (join (records (take size data_)))
format_study-FormsAgree api q batch data_ size count fits small h =
    let (comma, got, given, same, passed) = format_study-none api q batch data_ size count h in
    let (text, docs) = comma_text-records data_ size comma fits small given in
    (
      sym same ∙ docs,
      rw text at (format_passes-FormsAgree api q batch data_ size comma.text got passed),
    )
