-- ===== src/Pool/Total.antt =====
-- Weighted sums over the threads of a pool, and over runs of claims.
use jsonstreambench.Prelude.{ℕ, zero, suc, ◌+◌, ◌≡◌, List, [], ◌∷◌, some, arith, get_elem?, set}

module _ {ℓ} {A : Type ℓ} (weight : A → ℕ) where
  unfoldable pub total : List A → ℕ
  total [] = 0
  total (a ∷ xs) = weight a + total xs

  pub total-set :
      (xs : List A) (i : ℕ) (a b : A)
      → get_elem? xs i ≡ some a
      → total (set xs i b) + weight a ≡ total xs + weight b
  unfolding total
  total-set [] i a b h = absurd (ground arith)
  total-set (c ∷ xs) zero a b h = ground arith
  total-set (c ∷ xs) (suc i) a b h = omega (arith, total-set xs i a b h)

-- `c a + … + c (a + n - 1)`.
unfoldable pub range : (ℕ → ℕ) → ℕ → ℕ → ℕ
range c a zero = 0
range c a (suc n) = c a + range c (suc a) n

pub range_snoc : (c : ℕ → ℕ) (a n : ℕ) → range c a (suc n) ≡ range c a n + c (a + n)
unfolding range
range_snoc c a zero = let e : a + 0 ≡ a = omega arith in rw e (omega arith)
range_snoc c a (suc n) =
    let e : a + suc n ≡ suc a + n = omega arith in rw e (omega (arith, range_snoc c (suc a) n))

pub range_split : (c : ℕ → ℕ) (a m n : ℕ) → range c a (m + n) ≡ range c a m + range c (a + m) n
unfolding range
range_split c a zero n =
    let e : a + 0 ≡ a = omega arith in let z : 0 + n ≡ n = omega arith in rw (e, z) (omega arith)
range_split c a (suc m) n =
    let e : a + suc m ≡ suc a + m = omega arith in
    let z : suc m + n ≡ suc (m + n) = omega arith in
    rw (e, z) (omega (arith, range_split c (suc a) m n))
