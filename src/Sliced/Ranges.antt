-- ===== src/Sliced/Ranges.antt =====
-- src/parallel_stream.h, the slicing rule: the documents of all slices.
use jsonstreambench.Prelude.{
  ℕ, zero, suc, ◌+◌, ◌*◌, ◌≤◌, ◌<◌, ◌≡◌, refl, ap, ◌∙◌, sym, arith, Bytes, length, take, window,
  window-zero,
}
use jsonstreambench.Lines.{newline}
use jsonstreambench.Lines.Split.{lines, documents_of, documents}
use jsonstreambench.Slicing.Cover.{start, piece, start_first, start_last, documents-start}
use jsonstreambench.Pool.Total.{range, range_snoc}
use jsonstreambench.Sliced.Pieces.{sum_of, sum_of-append}

pub range_ext :
    (c d : ℕ → ℕ) (from n : ℕ)
    → ((k : ℕ) → from ≤ k → k < from + n → c k ≡ d k)
    → range c from n ≡ range d from n
unfolding range
range_ext c d from zero h = refl
range_ext c d from (suc n) h = omega (
  arith,
  h from (omega arith) (omega arith),
  range_ext c d (suc from) n (λ k a b. h k (omega arith) (omega arith)),
)

module _ (data_ : Bytes) (hi block : ℕ) (within : hi ≤ length data_) (pos : 0 < block)
    (f : Bytes → ℕ) where
  -- What the documents in front of the slice `k` add up to.
  sum-front :
      (k : ℕ)
      → sum_of f (documents (window data_ 0 (start data_ hi newline (k * block))))
        ≡ range (λ j. sum_of f (documents (piece data_ hi newline block (j * block)))) 0 k
  sum-front zero =
      rw (start_first data_ hi newline block within pos, window-zero data_ 0)
        (unfold documents lines documents_of sum_of range in refl)
  sum-front (suc k) =
      let c = λ (j : ℕ). sum_of f (documents (piece data_ hi newline block (j * block))) in
      let at : 0 + k ≡ k = omega arith in
      let front = documents (window data_ 0 (start data_ hi newline (k * block))) in
      ap (sum_of f) (documents-start data_ hi block within pos k)
      ∙ sum_of-append f front (documents (piece data_ hi newline block (k * block)))
      ∙ omega (arith, sum-front k, range_snoc c 0 k, ap c at)

  -- A number of each document, added up slice by slice.
  pub sum-pieces :
      (n : ℕ)
      → hi ≤ n * block
      → sum_of f (documents (take hi data_))
        ≡ range (λ j. sum_of f (documents (piece data_ hi newline block (j * block)))) 0 n
  unfolding window
  sum-pieces n h =
      let e = start_last data_ hi newline block within pos n h in
      ap (λ k. sum_of f (documents (take k data_))) (sym e) ∙ sum-front n
