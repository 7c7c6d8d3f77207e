-- ===== src/Slicing/Slices.antt =====
-- src/parallel_stream.h: what the workers of `parse_many` get from `slice_at`.
use jsonstreambench.Prelude.{
  ℕ, zero, suc, ◌+◌, ◌-◌, ◌*◌, ◌/◌, ◌%◌, ◌≤◌, ◌<◌, ◌≡◌, refl, ◌∙◌, sym, false, [], ◌++◌, ◌||◌,
  arith, Bytes, ltb, leb, ◌==◌, length, window-zero, Bool-cases, inl, inr, u64_mod, take_all,
}
use native.Mathlib.Nat.{le-div_iff_mul-le}
use jsonstreambench.Slicing.{snap, slice_at}
use jsonstreambench.Slicing.Bounds.{snap_end}
use jsonstreambench.Slicing.Cover.{start, piece, pieces, pieces_all}

-- A slice that begins in the input passes the test that keeps `index * block_size` from wrapping.
index-le : (size block index : ℕ) → 0 < block → index * block < size → index ≤ size / block
index-le size block index pos h =
    let (to, from) = le-div_iff_mul-le {k = block} {x = index} {y = size} pos in from (omega arith)

module _ (data_ : Bytes) (d block : ℕ) (pos : 0 < block)
    (small : length data_ + block < u64_mod) where
  -- Inside the input and behind its end, `slice_at` is the slice of the rule.
  pub slice_at-piece :
      (index : ℕ)
      → slice_at data_ d block index ≡ piece data_ (length data_) d block (index * block)
  unfolding slice_at piece start
  slice_at-piece index =
      let size = length data_ in
      let raw = index * block in
      let begin = start data_ size d raw in
      elim (Bool-cases (leb size raw)) [
        | inr inside ↦
            let before : raw < size = ground arith in
            let le = index-le size block index pos before in
            let tests : (block == 0 || ltb (size / block) index) ≡ false = ground arith in
            let whole : (raw + block) % u64_mod ≡ raw + block = omega arith in
            rw (tests, inside, whole)
              (elim (Bool-cases (leb (snap data_ size d (raw + block)) begin)) [
                | inr some_left ↦ rw some_left refl
                | inl none_left ↦
                    let z : snap data_ size d (raw + block) - begin ≡ 0 =
                      unfold start in ground arith in
                    rw (none_left, z) (sym (window-zero data_ begin))
              ])
        | inl beyond ↦
            let z : snap data_ size d (raw + block) - begin ≡ 0 = ground (
              arith,
              snap_end data_ size d (omega arith) raw (ground arith),
              snap_end data_ size d (omega arith) (raw + block) (ground arith),
            ) in
            rw (beyond, z, window-zero data_ begin)
              (elim (Bool-cases (block == 0 || ltb (size / block) index)) [
                | inl refused ↦ rw refused refl
                | inr admitted ↦ rw admitted refl
              ])
      ]

  -- The first `n` views that `slice_at` gives, put together.
  pub slices : ℕ → Bytes
  slices zero = []
  slices (suc n) = slices n ++ slice_at data_ d block n

  slices-pieces : (n : ℕ) → slices n ≡ pieces data_ (length data_) d block n
  unfolding slices pieces
  slices-pieces zero = refl
  slices-pieces (suc n) = rw (slices-pieces n, slice_at-piece n) refl

  -- The views that `slice_at` gives for enough indices, put together, are the input, if a slice
  -- more than the input does not wrap.
  pub slices_all : (n : ℕ) → length data_ ≤ n * block → slices n ≡ data_
  slices_all n h =
      slices-pieces n
      ∙ pieces_all data_ (length data_) d block (omega arith) pos n h
      ∙ take_all (length data_) data_ (omega arith)
