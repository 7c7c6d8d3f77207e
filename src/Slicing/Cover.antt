-- ===== src/Slicing/Cover.antt =====
-- src/dom_parallel.h: the slices of an input put together, and their documents.
use jsonstreambench.Prelude.{
  ℕ, zero, suc, ◌+◌, ◌-◌, ◌*◌, ◌≤◌, ◌<◌, ◌≡◌, ap, ◌∙◌, sym, [], ◌∷◌, ◌++◌, ◌⊎◌, inl, inr, arith,
  Bytes, if◌then◌else◌, ◌==◌, length, byte_at, take, window, window-zero, window_split, window_snoc,
  append-nil, Bool-cases,
}
use jsonstreambench.Lines.{newline}
use jsonstreambench.Lines.Split.{
  lines, documents_of, documents, IsWhole, empty, ended, documents-append,
}
use jsonstreambench.Slicing.{snap}
use jsonstreambench.Slicing.Bounds.{snap_end, snap-le, snap_mono, snap-IsBoundary}

-- Where the slice that is claimed at `raw` begins.
unfoldable pub start : Bytes → ℕ → ℕ → ℕ → ℕ
start data_ hi d raw = if raw == 0 then 0 else snap data_ hi d raw

-- What the slice `[raw, raw + block)` holds.
unfoldable pub piece : Bytes → ℕ → ℕ → ℕ → ℕ → Bytes
unfolding start
piece data_ hi d block raw =
    window data_ (start data_ hi d raw) (snap data_ hi d (raw + block) - start data_ hi d raw)

-- The first `k` slices, put together.
unfoldable pub pieces : Bytes → ℕ → ℕ → ℕ → ℕ → Bytes
pieces data_ hi d block zero = []
pieces data_ hi d block (suc k) = pieces data_ hi d block k ++ piece data_ hi d block (k * block)

module _ (data_ : Bytes) (hi d block : ℕ) (fits : hi ≤ length data_) (block_pos : 0 < block) where
  start-le : (raw : ℕ) → start data_ hi d raw ≤ hi
  unfolding start
  start-le raw = ground (arith, snap-le data_ hi d fits raw)

  pub start_first : start data_ hi d (0 * block) ≡ 0
  unfolding start
  start_first = ground arith

  start_next : (k : ℕ) → start data_ hi d (suc k * block) ≡ snap data_ hi d (k * block + block)
  unfolding start
  start_next k = let e : suc k * block ≡ k * block + block = omega arith in rw e (ground arith)

  pub start-le-snap : (raw : ℕ) → start data_ hi d raw ≤ snap data_ hi d (raw + block)
  unfolding start
  start-le-snap raw = ground (arith, snap_mono data_ hi d fits raw (raw + block) (omega arith))

  -- The text in front of a slice, and the slice.
  pub window-start :
      (k : ℕ)
      → window data_ 0 (start data_ hi d (suc k * block))
        ≡ window data_ 0 (start data_ hi d (k * block)) ++ piece data_ hi d block (k * block)
  unfolding piece
  window-start k =
      let a = start data_ hi d (k * block) in
      let b = snap data_ hi d (k * block + block) in
      let le : a ≤ b = start-le-snap (k * block) in
      let top : b ≤ hi = snap-le data_ hi d fits (k * block + block) in
      let e : a + (b - a) ≡ b = omega arith in
      ap (window data_ 0) (start_next k ∙ sym e)
      ∙ window_split data_ 0 a (b - a) (omega arith)
      ∙ ap (λ i. window data_ 0 a ++ window data_ i (b - a)) (omega arith)

  pieces-window :
      (k : ℕ) → pieces data_ hi d block k ≡ window data_ 0 (start data_ hi d (k * block))
  unfolding pieces
  pieces-window zero = rw start_first (sym (window-zero data_ 0))
  pieces-window (suc k) = rw (pieces-window k) (sym (window-start k))

  pub start_last : (n : ℕ) → hi ≤ n * block → start data_ hi d (n * block) ≡ hi
  unfolding start
  start_last n h = ground (arith, snap_end data_ hi d fits (n * block) h)

  -- Slices up to the end, put together, are the input.
  pub pieces_all : (n : ℕ) → hi ≤ n * block → pieces data_ hi d block n ≡ take hi data_
  unfolding window
  pieces_all n h = pieces-window n ∙ ap (window data_ 0) (start_last n h)

-- The text in front of a boundary is whole lines, or all of the text.
boundary-IsWhole :
    (data_ : Bytes) (p q : ℕ)
    → p ≡ suc q
    → p ≤ length data_
    → byte_at data_ q ≡ newline
    → IsWhole (window data_ 0 p)
boundary-IsWhole data_ p q e h nl =
    let cut : window data_ 0 p ≡ window data_ 0 q ++ newline ∷ [] =
      ap (window data_ 0) e
      ∙ window_snoc data_ 0 q (omega arith)
      ∙ ap (λ c. window data_ 0 q ++ c ∷ []) (ap (byte_at data_) (omega arith) ∙ nl) in
    rw cut (ended (window data_ 0 q))

module _ (data_ : Bytes) (hi block : ℕ) (fits : hi ≤ length data_) (block_pos : 0 < block) where
  start-IsWhole :
      (raw : ℕ)
      → (start data_ hi newline raw ≡ hi) ⊎ IsWhole (window data_ 0 (start data_ hi newline raw))
  unfolding start
  start-IsWhole raw = elim (Bool-cases (raw == 0)) [
    | inl first ↦ rw first (inr (rw (window-zero data_ 0) empty))
    | inr later ↦ rw later (elim (snap-IsBoundary data_ hi newline fits raw) [
      | inl end ↦ inl end
      | inr (q, e, nl) ↦ inr (
          boundary-IsWhole data_ (snap data_ hi newline raw) q e
            (omega (arith, snap-le data_ hi newline fits raw)) nl)
    ])
  ]

  piece_nil :
      (k : ℕ)
      → start data_ hi newline (k * block) ≡ hi
      → piece data_ hi newline block (k * block) ≡ []
  unfolding piece
  piece_nil k end =
      let top = snap-le data_ hi newline fits (k * block + block) in
      let z : snap data_ hi newline (k * block + block) - start data_ hi newline (k * block) ≡ 0 =
        omega arith in
      rw z (window-zero data_ _)

  -- No slice splits a document.
  pub documents-start :
      (k : ℕ)
      → documents (window data_ 0 (start data_ hi newline (suc k * block)))
        ≡ documents (window data_ 0 (start data_ hi newline (k * block)))
          ++ documents (piece data_ hi newline block (k * block))
  documents-start k =
      let cut = window-start data_ hi newline block fits block_pos k in
      elim (start-IsWhole (k * block)) [
        | inr whole ↦ ap documents cut ∙ documents-append _ whole
        | inl end ↦
            let none_left : piece data_ hi newline block (k * block) ≡ [] = piece_nil k end in
            rw none_left (
              ap documents (
                cut
                ∙ ap (λ t. window data_ 0 (start data_ hi newline (k * block)) ++ t) none_left
                ∙ append-nil _)
              ∙ unfold documents lines documents_of in sym (append-nil _))
      ]
