-- ===== src/Loaders/Records.antt =====
-- src/loaders.h, `scan_range`: the records that it looks for, said without positions.
use jsonstreambench.Prelude.{
  ℕ, zero, suc, ◌+◌, ◌-◌, ◌%◌, ◌≤◌, ◌<◌, ◌≡◌, refl, ap, ◌∙◌, sym, true, false, List, [], ◌∷◌, ◌++◌,
  arith, Bytes, length, take, drop, if◌then◌else◌, ltb, leb, window, window-zero, length-window,
  take-window, drop-window, Bool-cases, Option-cases, inl, inr, some, none,
}
use jsonstreambench.Trim.{shrink, shrink-le, rtrim, rtrim-append, window-shrink}
use jsonstreambench.Lines.{newline, memchr}
use jsonstreambench.Lines.Split.{lines, found_cases, lines_found, lines_not_found}
use jsonstreambench.Slicing.{snap}
use jsonstreambench.Loaders.{Span, u32_mod, min_record_bytes, is_terminator, span_of, scan_range}
use jsonstreambench.Loaders.Scan.{scan_range_step, scan_range_end}

-- The lines without line feeds and carriage returns at their ends, and of these the long ones.
unfoldable pub records_of : List Bytes → List Bytes
records_of [] = []
records_of (l ∷ ls) =
    let r = rtrim is_terminator l in
    if ltb min_record_bytes (length r) then r ∷ records_of ls else records_of ls

unfoldable pub records : Bytes → List Bytes
records s = records_of (lines s)

-- The bytes of spans.
unfoldable pub texts : Bytes → List Span → List Bytes
texts data_ [] = []
texts data_ (s ∷ spans) = window data_ s.off s.len ∷ texts data_ spans

-- A found line feed ends the window up to it.
take_found :
    (s : Bytes) (k : ℕ) → memchr s newline ≡ some k → take (suc k) s ≡ take k s ++ newline ∷ []
take_found [] k h = absurd (unfold memchr in ground arith)
take_found (c ∷ s) k h = elim (found_cases c s k h) [
  | inl (e, z) ↦ let at : c ≡ newline = ground arith in rw (z, at)
  | inr (e, (j, m, z)) ↦ rw z (ap (λ t. c ∷ t) (take_found s j m))
]

newline_trims : is_terminator newline ≡ true
unfolding is_terminator
newline_trims = refl

module _ (data_ : Bytes) (size : ℕ) (fits : size ≤ length data_) (small : size < u32_mod) where
  -- The span of a line is its record, if the line has one.
  span_of_lem :
      (pos end : ℕ) (l : Bytes) (ls : List Bytes) (spans : List Span)
      → pos ≤ end
      → end ≤ size
      → rtrim is_terminator (window data_ pos (end - pos)) ≡ rtrim is_terminator l
      → texts data_ spans ≡ records_of ls
      → texts data_ (span_of data_ pos end ++ spans) ≡ records_of (l ∷ ls)
  unfolding span_of records_of texts
  span_of_lem pos end l ls spans h p same rest =
      let k = shrink is_terminator data_ pos (end - pos) in
      let below : k ≤ end - pos = shrink-le is_terminator data_ pos (end - pos) in
      let whole : k % u32_mod ≡ k = omega arith in
      let record_ : window data_ pos k ≡ rtrim is_terminator l =
        window-shrink is_terminator data_ pos (end - pos) (omega arith) ∙ same in
      let long : length (rtrim is_terminator l) ≡ k =
        ap length (sym record_) ∙ length-window data_ pos k (omega arith) in
      rw long (elim (Bool-cases (ltb min_record_bytes k)) [
        | inl enough ↦ rw (enough, whole, record_, rest) refl
        | inr few ↦ rw few rest
      ])

  snap_found :
      (pos k : ℕ)
      → pos < size
      → memchr (window data_ pos (size - pos)) newline ≡ some k
      → snap data_ size newline pos ≡ pos + k + 1
  unfolding snap
  snap_found pos k h found =
      let inside : leb size pos ≡ false = ground arith in rw (inside, found) refl

  snap_missing :
      (pos : ℕ)
      → pos < size
      → memchr (window data_ pos (size - pos)) newline ≡ none
      → snap data_ size newline pos ≡ size
  unfolding snap
  snap_missing pos h missing =
      let inside : leb size pos ≡ false = ground arith in rw (inside, missing) refl

  -- A line that a line feed at `k` ends, and what is behind it.
  lines-window :
      (pos k : ℕ)
      → pos ≤ size
      → memchr (window data_ pos (size - pos)) newline ≡ some k
      → (lines (window data_ pos (size - pos))
          ≡ window data_ pos k ∷ lines (window data_ (pos + k + 1) (size - (pos + k + 1))))
        × (window data_ pos (pos + k + 1 - pos) ≡ window data_ pos k ++ newline ∷ [])
        × (pos + k + 1 ≤ size)
  lines-window pos k h found =
      let n = size - pos in
      let v = window data_ pos n in
      let room : pos + n ≤ length data_ = omega arith in
      let (split, within) = lines_found v k found in
      let inside : k < n = omega (arith, length-window data_ pos n room, within) in
      let front : take k v ≡ window data_ pos k = take-window data_ pos k n (omega arith) room in
      let at : pos + suc k ≡ pos + k + 1 = omega arith in
      let left : n - suc k ≡ size - (pos + k + 1) = omega arith in
      let line : suc k ≡ pos + k + 1 - pos = omega arith in
      let rest : drop (suc k) v ≡ window data_ (pos + k + 1) (size - (pos + k + 1)) =
        drop-window data_ pos (suc k) n inside room
        ∙ ap (λ i. window data_ i (n - suc k)) at
        ∙ ap (window data_ (pos + k + 1)) left in
      (
        rw (split, front, rest) refl,
        ap (window data_ pos) (sym line)
            ∙ sym (take-window data_ pos (suc k) n inside room)
            ∙ take_found v k found
            ∙ ap (λ t. t ++ newline ∷ []) front,
        omega arith,
      )

  texts_from :
      (fuel pos : ℕ)
      → pos ≤ size
      → size - pos ≤ fuel
      → texts data_ (scan_range data_ pos size) ≡ records_of (lines (window data_ pos (size - pos)))
  texts_from zero pos h b =
      let z : size - pos ≡ 0 = omega arith in
      rw (scan_range_end data_ size fits pos (omega arith), z, window-zero data_ pos)
        (unfold texts records_of lines in refl)
  texts_from (suc fuel) pos h b = elim (Bool-cases (ltb pos size)) [
    | inr done ↦
        let z : size - pos ≡ 0 = ground arith in
        rw (scan_range_end data_ size fits pos (ground arith), z, window-zero data_ pos)
          (unfold texts records_of lines in refl)
    | inl more ↦
        let before : pos < size = ground arith in
        elim (Option-cases (memchr (window data_ pos (size - pos)) newline)) [
          | inr (k, found) ↦
              let (split, line, within) = lines-window pos k h found in
              rw (scan_range_step data_ size fits pos before, snap_found pos k before found, split)
                (span_of_lem pos (pos + k + 1) (window data_ pos k) _ _ (omega arith) within
                  (ap (rtrim is_terminator) line
                    ∙ rtrim-append is_terminator (window data_ pos k) (newline ∷ [])
                        (newline_trims, tt))
                  (texts_from fuel (pos + k + 1) within (omega arith)))
          | inl missing ↦
              let long : 0 < length (window data_ pos (size - pos)) =
                omega (arith, length-window data_ pos (size - pos) (omega arith)) in
              let z : size - size ≡ 0 = omega arith in
              rw
                (
                  scan_range_step data_ size fits pos before,
                  snap_missing pos before missing,
                  lines_not_found (window data_ pos (size - pos)) missing long,
                  scan_range_end data_ size fits size (omega arith),
                )
                (span_of_lem pos size (window data_ pos (size - pos)) [] [] (omega arith)
                  (omega arith) refl (unfold texts records_of in refl))
        ]
  ]

-- The spans that a scan of an input below 4 GiB finds are its lines, trimmed, of more than five
-- bytes, in order.
pub scan_range-records :
    (data_ : Bytes) (size : ℕ)
    → size ≤ length data_
    → size < u32_mod
    → texts data_ (scan_range data_ 0 size) ≡ records (take size data_)
unfolding records
scan_range-records data_ size fits small =
    let e : size - 0 ≡ size = omega arith in
    texts_from data_ size fits small size 0 (omega arith) (omega arith)
    ∙ ap (λ n. records_of (lines (window data_ 0 n))) e
    ∙ unfold window in refl
