-- ===== src/Arena/Table.antt =====
-- src/cujson_baseline/cujson_baseline.cpp: the searches through the table of blocks.
use jsonstreambench.Prelude.{
  ℕ, zero, suc, ◌+◌, ◌≡◌, ◌≢◌, refl, true, ◌&&◌, List, [], ◌∷◌, Option, some, arith, ◌⊎◌, inl, inr,
  ◌==◌, set, get_elem?, Bool-cases,
}
use jsonstreambench.Arena.{Block, is_mapped, fits, is_better, find_block, find_free, best_fit}

-- An entry of a table that was written to is the new one or an old one.
pub set_cases {ℓ} :
    {A : Type ℓ} (bs : List A) (i j : ℕ) (v c : A)
    → get_elem? (set bs i v) j ≡ some c
    → ((j ≡ i) × (c ≡ v)) ⊎ ((j ≢ i) × (get_elem? bs j ≡ some c))
set_cases [] i j v c h = absurd (ground arith)
set_cases (b ∷ bs) zero zero v c h = inl (refl, ground arith)
set_cases (b ∷ bs) zero (suc j) v c h = inr (λ e. absurd (omega arith), h)
set_cases (b ∷ bs) (suc i) zero v c h = inr (λ e. absurd (omega arith), h)
set_cases (b ∷ bs) (suc i) (suc j) v c h = elim (set_cases bs i j v c h) [
  | inl (e, w) ↦ inl (omega arith, w)
  | inr (n, w) ↦ inr (λ e. n (omega arith), w)
]

pub get_elem?-set {ℓ} :
    {A : Type ℓ} (bs : List A) (i : ℕ) (v c : A)
    → get_elem? bs i ≡ some c
    → get_elem? (set bs i v) i ≡ some v
get_elem?-set [] i v c h = absurd (ground arith)
get_elem?-set (b ∷ bs) zero v c h = refl
get_elem?-set (b ∷ bs) (suc i) v c h = get_elem?-set bs i v c h

-- The entry that a search finds.
pub record Found (bs : List Block) (i j : ℕ) (b : Block) (P : Type 0) : Type 0 where
  pub at : ℕ
  pub index : j ≡ i + at
  pub there : get_elem? bs at ≡ some b
  pub holds : P

further :
    {bs : List Block} {i j : ℕ} {b : Block} {P : Type 0} (c : Block)
    → Found bs (suc i) j b P
    → Found (c ∷ bs) i j b P
further c f = record {
  at = suc f.at;
  index = omega (arith, f.index);
  there = f.there;
  holds = f.holds;
}

pub find_block-Found :
    (p : ℕ) (bs : List Block) (i j : ℕ) (b : Block)
    → find_block p bs i ≡ some (j, b)
    → Found bs i j b ((b.base ≢ 0) × (b.user ≡ p))
unfolding find_block
find_block-Found p [] i j b h = absurd (ground arith)
find_block-Found p (c ∷ bs) i j b h = elim (Bool-cases (is_mapped c && c.user == p)) [
  | inl hit ↦ record {
    at = 0;
    index = ground arith;
    there = ground arith;
    holds = (ground arith, ground arith);
  }
  | inr miss ↦ further c (find_block-Found p bs (suc i) j b (ground arith))
]

pub find_free-Found :
    (bs : List Block) (i j : ℕ)
    → find_free bs i ≡ some j
    → (b : Block) × Found bs i j b (b.base ≡ 0)
unfolding find_free
find_free-Found [] i j h = absurd (ground arith)
find_free-Found (c ∷ bs) i j h = elim (Bool-cases (c.base == 0)) [
  | inl hit ↦ (c, record { at = 0; index = ground arith; there = refl; holds = ground arith })
  | inr miss ↦ let (b, f) = find_free-Found bs (suc i) j (ground arith) in (b, further c f)
]

-- A best fit is the best so far or an entry of the table.
pub best_fit-Found :
    (n : ℕ) (bs : List Block) (i : ℕ) (best : Option (ℕ × Block)) (j : ℕ) (b : Block)
    → best_fit n bs i best ≡ some (j, b)
    → (best ≡ some (j, b)) ⊎ Found bs i j b (fits n b ≡ true)
unfolding best_fit
best_fit-Found n [] i best j b h = inl h
best_fit-Found n (c ∷ bs) i best j b h = elim (Bool-cases (fits n c && is_better c best)) [
  | inl taken ↦ elim (best_fit-Found n bs (suc i) (some (i, c)) j b (ground arith)) [
    | inl here ↦
        inr (record { at = 0; index = ground arith; there = ground arith; holds = ground arith })
    | inr later ↦ inr (further c later)
  ]
  | inr kept ↦ elim (best_fit-Found n bs (suc i) best j b (ground arith)) [
    | inl here ↦ inl here
    | inr later ↦ inr (further c later)
  ]
]
