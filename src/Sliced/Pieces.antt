-- ===== src/Sliced/Pieces.antt =====
-- src/dom_parallel.h: the claims of `run_sliced`.
use native.Mathlib.Nat.{le-div_iff_mul-le, div-lt_iff_lt-mul}
use jsonstreambench.Prelude.{
  ℕ, suc, ◌+◌, ◌-◌, ◌*◌, ◌/◌, ◌%◌, ◌≤◌, ◌<◌, ◌≡◌, ap, List, [], ◌∷◌, ◌++◌, arith, u64_mod, visit,
}
use jsonstreambench.Extraction.{Extraction}
use jsonstreambench.Extraction.Sum.{Adds, id-Adds, compose-Adds}
use jsonstreambench.Sliced.{slice_count}

-- A number of each element, added up.
module _ {ℓ} {A : Type ℓ} (f : A → ℕ) where
  unfoldable pub sum_of : List A → ℕ
  sum_of [] = 0
  sum_of (d ∷ ds) = f d + sum_of ds

  pub sum_of-append : (ds es : List A) → sum_of (ds ++ es) ≡ sum_of ds + sum_of es
  unfolding sum_of
  sum_of-append [] es = omega arith
  sum_of-append (d ∷ ds) es = omega (arith, sum_of-append ds es)

module _ {ℓ} {A : Type ℓ} (handle : A → Extraction → Extraction) (s m : A → ℕ)
    (adds : (d : A) → Adds (handle d) (s d) (m d)) where
  -- A run over elements adds what they add.
  pub visit-Adds : (ds : List A) → Adds (visit handle ds) (sum_of s ds) (sum_of m ds)
  unfolding visit sum_of
  visit-Adds [] = id-Adds
  visit-Adds (d ∷ ds) = compose-Adds (adds d) (visit-Adds ds)

module _ (length_ size threads : ℕ) where
  -- The sums and products of the loop stay below `2 ^ 64`.
  pub record Fits : Type 0 where
    pub size_pos : 0 < size
    pub sum : length_ + size < u64_mod
    pub room : (slice_count length_ size + threads) * size < u64_mod
    pub small : slice_count length_ size * threads < u64_mod

  pub slice_count_lem : Fits → slice_count length_ size ≡ (length_ + size - 1) / size
  unfolding slice_count
  slice_count_lem fits =
      let e : (length_ + size + (u64_mod - 1)) % u64_mod ≡ length_ + size - 1 =
        omega (arith, fits.sum, fits.size_pos) in
      ap (λ t. t / size) e

  pub claim_inside : Fits → (k : ℕ) → k < slice_count length_ size → k * size < length_
  claim_inside fits k h =
      let h' : suc k ≤ (length_ + size - 1) / size = omega (arith, slice_count_lem fits) in
      let m = (le-div_iff_mul-le fits.size_pos).0 h' in omega (arith, fits.size_pos)

  pub claim_outside : Fits → (k : ℕ) → slice_count length_ size ≤ k → length_ ≤ k * size
  claim_outside fits k h =
      let h' : (length_ + size - 1) / size < suc k = omega (arith, slice_count_lem fits) in
      let m = (div-lt_iff_lt-mul fits.size_pos).0 h' in omega (arith, fits.size_pos)
