-- ===== src/Lines/Loop.antt =====
-- src/dom_queries.h: the rounds of `for_each_line` beside the documents of its input.
use jsonstreambench.Prelude.{
  ℕ, zero, suc, ◌+◌, ◌-◌, ◌≤◌, ◌<◌, ◌≡◌, refl, ap, ◌∙◌, sym, true, false, List, [], ◌∷◌, arith, inl,
  inr, none, some, Bytes, length, take, drop, window, window-zero, take-window, drop-window,
  length-window, if◌then◌else◌, ltb, Bool-cases, Option-cases, visit,
}
use jsonstreambench.Trim.{shrink, shrink-le, window-shrink}
use jsonstreambench.Lines.{memchr, newline, is_line_space, line_body, line_loop, for_each_line}
use jsonstreambench.Lines.Split.{
  lines, documents_of, documents, is_nil, lines_found, lines_not_found,
}

is_nil_cons : (l : Bytes) → 0 < length l → is_nil l ≡ false
unfolding is_nil
is_nil_cons [] h = absurd (omega arith)
is_nil_cons (c ∷ l) h = refl

is_nil-window :
    (s : Bytes) (pos n : ℕ)
    → pos + n ≤ length s
    → is_nil (window s pos n) ≡ (if ltb 0 n then false else true)
is_nil-window s pos zero h = unfold window is_nil in refl
is_nil-window s pos (suc n) h =
    ground
      (arith, is_nil_cons (window s pos (suc n)) (omega (arith, length-window s pos (suc n) h)))

module _ {ℓ} {S : Type ℓ} (data_ : Bytes) (size : ℕ) (f : Bytes → S → S) where
  -- The body hands over the document of its line, if the line has one.
  line_body_lem :
      (pos end : ℕ) (ls : List Bytes) (s : S)
      → pos ≤ end
      → end ≤ length data_
      → visit f (documents_of (window data_ pos (end - pos) ∷ ls)) s
        ≡ visit f (documents_of ls) (line_body data_ size f pos end s)
  unfolding line_body documents_of
  line_body_lem pos end ls s h p =
      let n = end - pos in
      let fits : pos + n ≤ length data_ = omega arith in
      let k = shrink is_line_space data_ pos n in
      let below : k ≤ n = shrink-le is_line_space data_ pos n in
      rw (← window-shrink is_line_space data_ pos n fits, is_nil-window data_ pos k (omega arith))
        (elim (Bool-cases (ltb 0 k)) [
          | inl some_left ↦ rw some_left (unfold visit in refl)
          | inr none_left ↦ rw none_left
        ])

  -- A line feed at `k` in the window: the first document, and then those behind it.
  visit_found :
      (pos k : ℕ) (s : S)
      → pos ≤ size
      → size ≤ length data_
      → memchr (window data_ pos (size - pos)) newline ≡ some k
      → (pos + k < size)
        × (visit f (documents (window data_ pos (size - pos))) s
            ≡ visit f
                (documents (window data_ (pos + k + 1) (size - (pos + k + 1))))
                (line_body data_ size f pos (pos + k) s))
  unfolding documents
  visit_found pos k s h p found =
      let n = size - pos in
      let v = window data_ pos n in
      let fits : pos + n ≤ length data_ = omega arith in
      let (split, within) = lines_found v k found in
      let inside : k < n = omega (arith, length-window data_ pos n fits, within) in
      let e : pos + k - pos ≡ k = omega arith in
      let front : take k v ≡ window data_ pos (pos + k - pos) =
        take-window data_ pos k n (omega arith) fits ∙ ap (window data_ pos) (sym e) in
      let at : pos + suc k ≡ pos + k + 1 = omega arith in
      let left : n - suc k ≡ size - (pos + k + 1) = omega arith in
      let rest : drop (suc k) v ≡ window data_ (pos + k + 1) (size - (pos + k + 1)) =
        drop-window data_ pos (suc k) n inside fits
        ∙ ap (λ i. window data_ i (n - suc k)) at
        ∙ ap (window data_ (pos + k + 1)) left in
      (
        omega arith,
        rw (split, front, rest)
            (line_body_lem pos (pos + k) (lines (window data_ (pos + k + 1) (size - (pos + k + 1))))
              s (omega arith) (omega arith)),
      )

  -- No line feed in the window: its document is the last.
  visit_last :
      (pos : ℕ) (s : S)
      → pos < size
      → size ≤ length data_
      → memchr (window data_ pos (size - pos)) newline ≡ none
      → visit f (documents (window data_ pos (size - pos))) s ≡ line_body data_ size f pos size s
  unfolding documents
  visit_last pos s h p missing =
      let n = size - pos in
      let long : 0 < length (window data_ pos n) =
        omega (arith, length-window data_ pos n (omega arith)) in
      rw (lines_not_found (window data_ pos n) missing long)
        (line_body_lem pos size [] s (omega arith) p ∙ unfold visit documents_of in refl)

  visit_none :
      (pos : ℕ) (s : S) → pos ≡ size → visit f (documents (window data_ pos (size - pos))) s ≡ s
  unfolding documents
  visit_none pos s e =
      let z : size - pos ≡ 0 = omega arith in
      rw (z, window-zero data_ pos) (unfold lines documents_of visit in refl)

  line_loop_lem :
      (fuel pos : ℕ) (s : S)
      → pos ≤ size
      → size ≤ length data_
      → size - pos < fuel
      → line_loop data_ size f fuel pos s ≡ visit f (documents (window data_ pos (size - pos))) s
  unfolding line_loop
  line_loop_lem zero pos s h p b = absurd (omega arith)
  line_loop_lem (suc fuel) pos s h p b = elim (Bool-cases (ltb pos size)) [
    | inr done ↦ rw done (sym (visit_none pos s (ground arith)))
    | inl more ↦ elim (Option-cases (memchr (window data_ pos (size - pos)) newline)) [
      | inl missing ↦
          let before : pos < size = ground arith in
          rw (more, missing)
            (line_loop_lem fuel size (line_body data_ size f pos size s) (omega arith) p
                (omega arith)
              ∙ visit_none size (line_body data_ size f pos size s) refl
              ∙ sym (visit_last pos s before p missing))
      | inr (k, found) ↦
          let (inside, eq) = visit_found pos k s h p found in
          rw (more, found)
            (line_loop_lem fuel (pos + k + 1) (line_body data_ size f pos (pos + k) s) (omega arith)
                p (omega arith)
              ∙ sym eq)
    ]
  ]

  -- `for_each_line` calls its function on the documents of the first `size` bytes, in order,
  -- and on nothing else.
  pub for_each_line-documents :
      (s : S)
      → size ≤ length data_
      → for_each_line data_ size f s ≡ visit f (documents (take size data_)) s
  unfolding for_each_line window
  for_each_line-documents s p =
      line_loop_lem (size + 1) 0 s (omega arith) p (omega arith)
      ∙ let e : size - 0 ≡ size = omega arith in rw e
