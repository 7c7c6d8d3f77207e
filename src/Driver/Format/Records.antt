-- ===== src/Driver/Format/Records.antt =====
-- src/main.cpp: what the text with commas holds, and what the study of the formats compares.
use jsonstreambench.Prelude.{
  ℕ, zero, suc, ◌+◌, ◌-◌, ◌%◌, ◌⊎◌, ◌≤◌, ◌<◌, ◌≡◌, refl, ap, ◌∙◌, sym, true, false, List, [], ◌∷◌,
  ◌++◌, arith, Bytes, length, take, ltb, leb, ◌==◌, u64_mod, window, Bool-cases, Option-cases,
  length-window, length-take, append-nil, append_assoc, inl, inr, some,
}
use jsonstreambench.Trim.{shrink, shrink-le, rtrim, rtrim-le}
use jsonstreambench.Lines.{newline}
use jsonstreambench.Lines.Split.{lines, total_length, total_length-lines}
use jsonstreambench.Slicing.{snap}
use jsonstreambench.Loaders.{
  u32_mod, min_record_bytes, is_terminator, behind_newline, span_of, scan_range,
}
use jsonstreambench.Loaders.Scan.{scan_range_step, scan_range_end, snap_on}
use jsonstreambench.Loaders.Records.{texts, records, records_of, scan_range-records}
use jsonstreambench.Driver.Format.{
  CommaText, push_record, take_record, comma_loop, no_comma, comma_text,
}

-- Records behind a text that holds some.
unfoldable pub push_records : List Bytes → CommaText → CommaText
push_records [] comma = comma
push_records (r ∷ rs) comma = push_records rs (push_record r comma)

-- Records with commas between them.
unfoldable pub behind_comma : List Bytes → Bytes
behind_comma [] = []
behind_comma (r ∷ rs) = b',' ∷ (r ++ behind_comma rs)

unfoldable pub join : List Bytes → Bytes
unfolding behind_comma
join [] = []
join (r ∷ rs) = r ++ behind_comma rs

push_records-behind_comma :
    (rs : List Bytes) (comma : CommaText)
    → 0 < comma.docs
    → comma.docs + length rs < u64_mod
    → ((push_records rs comma).text ≡ comma.text ++ behind_comma rs)
      × ((push_records rs comma).docs ≡ comma.docs + length rs)
unfolding push_records behind_comma push_record
push_records-behind_comma [] comma some_docs small = (sym (append-nil comma.text), omega arith)
push_records-behind_comma (r ∷ rs) comma some_docs small =
    let next = push_record r comma in
    let more : next.docs ≡ comma.docs + 1 = omega arith in
    let first : (comma.docs == 0) ≡ false = ground arith in
    let (text, docs) = push_records-behind_comma rs next (omega arith) (omega arith) in
    let written : next.text ≡ (comma.text ++ b',' ∷ []) ++ r = rw first refl in
    (
      text
          ∙ ap (λ t. t ++ behind_comma rs) written
          ∙ append_assoc (comma.text ++ b',' ∷ []) r (behind_comma rs)
          ∙ append_assoc comma.text (b',' ∷ []) (r ++ behind_comma rs),
      omega arith,
    )

-- The first record has no comma in front.
push_records-join :
    (rs : List Bytes)
    → length rs < u64_mod
    → ((push_records rs no_comma).text ≡ join rs) × ((push_records rs no_comma).docs ≡ length rs)
unfolding push_records push_record join
push_records-join [] small = (unfold behind_comma in refl, refl)
push_records-join (r ∷ rs) small =
    let (text, docs) =
      push_records-behind_comma rs (push_record r no_comma) (omega arith) (omega arith) in
    (text, omega arith)

-- What is done with a record that does not end the study.
take_record_cases :
    (r : Bytes) (comma next : CommaText)
    → take_record r comma ≡ some next
    → ((length r ≡ 0) × (next ≡ comma))
      ⊎ ((min_record_bytes < length r) × (0 < length r) × (next ≡ push_record r comma))
unfolding take_record
take_record_cases r comma next h = elim (Bool-cases (length r == 0)) [
  | inl empty ↦ inl (ground arith, ground (arith, rw empty at h))
  | inr full ↦ elim (Bool-cases (leb (length r) min_record_bytes)) [
    | inl few ↦ absurd (ground (arith, rw (full, few) at h))
    | inr enough ↦ inr (ground arith, ground arith, ground (arith, rw (full, enough) at h))
  ]
]

module _ (data_ : Bytes) (size : ℕ) (fits : size ≤ length data_) (small : size < u32_mod) where
  -- The spans of the scan are those that the loop pushes.
  comma_loop-push_records :
      (fuel pos : ℕ) (comma got : CommaText)
      → pos ≤ size
      → size - pos < fuel
      → comma_loop data_ size fuel pos comma ≡ some got
      → got ≡ push_records (texts data_ (scan_range data_ pos size)) comma
  unfolding comma_loop span_of texts push_records
  comma_loop-push_records zero pos comma got h b e = absurd (omega arith)
  comma_loop-push_records (suc fuel) pos comma got h b e = elim (Bool-cases (ltb pos size)) [
    | inr done ↦
        rw (scan_range_end data_ size fits pos (ground arith)) (ground (arith, rw done at e))
    | inl more ↦
        let before : pos < size = ground arith in
        let inside : leb size pos ≡ false = ground arith in
        let stop : snap data_ size newline pos ≡ behind_newline data_ size pos =
          unfold snap behind_newline in rw inside refl in
        let end = behind_newline data_ size pos in
        let (on, within) : (pos < end) × (end ≤ size) =
          rw stop at (snap_on data_ size fits pos before) in
        let n = shrink is_terminator data_ pos (end - pos) in
        let below : n ≤ end - pos = shrink-le is_terminator data_ pos (end - pos) in
        let whole : n % u32_mod ≡ n = omega arith in
        let long : length (window data_ pos n) ≡ n = length-window data_ pos n (omega arith) in
        rw (scan_range_step data_ size fits pos before, stop)
          elim (Option-cases (take_record (window data_ pos n) comma)) [
            | inl missing ↦ absurd (ground (arith, rw (more, missing) at e))
            | inr (next, given) ↦
                let rest =
                  comma_loop-push_records fuel end next got within (omega arith)
                    (rw (more, given) at e) in
                elim (take_record_cases (window data_ pos n) comma next given) [
                  | inl (empty, same) ↦
                      (let few : ltb min_record_bytes n ≡ false = ground arith in
                        rw few (rw same at rest))
                  | inr (enough, full, pushed) ↦
                      (let many : ltb min_record_bytes n ≡ true = ground arith in
                        rw (many, whole) (rw pushed at rest))
                ]
          ]
  ]

length-records_of : (ls : List Bytes) → length (records_of ls) ≤ total_length ls
unfolding records_of total_length
length-records_of [] = omega arith
length-records_of (l ∷ ls) =
    let short = rtrim-le is_terminator l in
    let rest = length-records_of ls in
    elim (Bool-cases (ltb min_record_bytes (length (rtrim is_terminator l)))) [
      | inl long ↦ rw long (ground arith)
      | inr few ↦ rw few (omega arith)
    ]

-- If no record has five bytes or less, the text with commas is the corpus's records, joined.
pub comma_text-records :
    (data_ : Bytes) (size : ℕ) (got : CommaText)
    → size ≤ length data_
    → size < u32_mod
    → comma_text data_ size ≡ some got
    → (got.text ≡ join (records (take size data_)))
      × (got.docs ≡ length (records (take size data_)))
unfolding comma_text records
comma_text-records data_ size got fits small e =
    let rs = records (take size data_) in
    let pushed : got ≡ push_records rs no_comma = rw (scan_range-records data_ size fits small) at (
      comma_loop-push_records data_ size fits small (size + 1) 0 no_comma got (omega arith)
        (omega arith) e) in
    let (text, docs) = push_records-join rs (
      omega (
        arith,
        length-records_of (lines (take size data_)),
        total_length-lines (take size data_),
        length-take size data_,
      )) in
    (ap (λ c. c.text) pushed ∙ text, ap (λ c. c.docs) pushed ∙ docs)
