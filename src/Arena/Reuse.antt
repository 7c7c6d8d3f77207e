-- ===== src/Arena/Reuse.antt =====
-- src/cujson_baseline/cujson_baseline.cpp: what `allocate` hands out.
use jsonstreambench.Prelude.{
  ℕ, zero, suc, ◌+◌, ◌*◌, ◌≤◌, ◌≡◌, ◌≢◌, ap, true, ◌&&◌, List, [], ◌∷◌, Option, none, some, arith,
  inl, inr, if◌then◌else◌, ltb, get_elem?, length-replicate, replicate, u64_mod, Bool-cases,
}
use jsonstreambench.Arena.{
  AllocMode, huge, Block, no_block, Arena, no_arena, fits, is_better, best_fit, allocate, release,
}
use jsonstreambench.Arena.Layout.{IsValid, Fresh, map_length, allocate-IsValid, release-IsValid}

-- What the program does to the arena: it sets the mode, allocates and releases.
pub data Step : Arena → Arena → Type 0 where
  switches : (a : Arena) (m : AllocMode) → Step a (record a { mode = m })
  allocates :
      (a : Arena) (answer : ℕ → Option ℕ) (malloc : ℕ → ℕ) (n : ℕ)
      → n + 2 * huge ≤ u64_mod
      → Fresh answer a.blocks (map_length n)
      → Step a (allocate answer malloc n a).1
  releases : (a : Arena) (p : ℕ) → Step a (release p a)

pub data Reach (s : Arena) : Arena → Type 0 where
  here : Reach s s
  next : {t u : Arena} → Reach s t → Step t u → Reach s u

pub get_elem?-replicate {ℓ} :
    {A : Type ℓ} (n i : ℕ) (a b : A) → get_elem? (replicate n a) i ≡ some b → b ≡ a
get_elem?-replicate zero i a b h = absurd (ground arith)
get_elem?-replicate (suc n) zero a b h = ground arith
get_elem?-replicate (suc n) (suc i) a b h = get_elem?-replicate n i a b h

pub no_arena-IsValid : (m : AllocMode) → IsValid (no_arena m)
no_arena-IsValid m = record {
  size = length-replicate 256 no_block;
  shaped = λ i b h. let e = get_elem?-replicate 256 i no_block b h in inl (ap (λ c. c.base) e);
  apart =
      λ i j b c n h k. let e = get_elem?-replicate 256 i no_block b h in inl (ap (λ c. c.base) e);
}

Step-IsValid : {a b : Arena} → Step a b → IsValid a → IsValid b
Step-IsValid (switches a m) valid = record {
  size = valid.size;
  shaped = valid.shaped;
  apart = valid.apart;
}
Step-IsValid (allocates a answer malloc n room fresh) valid =
    allocate-IsValid answer malloc n room a fresh valid
Step-IsValid (releases a p) valid = release-IsValid p a valid

-- From the empty table, every sequence of changes of the mode, allocations and releases keeps 256
-- entries, each of them empty or an aligned block inside its mapping, and no two mappings
-- overlap, if the requests do not wrap and the system gives mappings that overlap no other.
pub Reach-IsValid : (m : AllocMode) {a : Arena} → Reach (no_arena m) a → IsValid a
Reach-IsValid m here = no_arena-IsValid m
Reach-IsValid m (next r st) = Step-IsValid st (Reach-IsValid m r)

best_fit-le :
    (n : ℕ) (bs : List Block) (i j k : ℕ) (b best : Block)
    → best_fit n bs i (some (k, best)) ≡ some (j, b)
    → b.capacity ≤ best.capacity
unfolding best_fit
best_fit-le n [] i j k b best h = ground arith
best_fit-le n (c ∷ bs) i j k b best h =
    elim (Bool-cases (fits n c && is_better c (some (k, best)))) [
      | inl taken ↦ ground (arith, best_fit-le n bs (suc i) j i b c)
      | inr kept ↦ ground (arith, best_fit-le n bs (suc i) j k b best)
    ]

-- No freed block that fits is smaller.
pub best_fit-least :
    (n : ℕ) (bs : List Block) (i j k : ℕ) (best : Option (ℕ × Block)) (b c : Block)
    → best_fit n bs i best ≡ some (j, b)
    → get_elem? bs k ≡ some c
    → fits n c ≡ true
    → b.capacity ≤ c.capacity
unfolding best_fit
best_fit-least n [] i j k best b c h there fit = absurd (ground arith)
best_fit-least n (d ∷ bs) i j (suc k) best b c h there fit =
    best_fit-least n bs (suc i) j k (if fits n d && is_better d best then some (i, d) else best) b c
      h there fit
best_fit-least n (d ∷ bs) i j zero none b c h there fit =
    ground (arith, best_fit-le n bs (suc i) j i b d)
best_fit-least n (d ∷ bs) i j zero (some (m, best)) b c h there fit =
    elim (Bool-cases (ltb d.capacity best.capacity)) [
      | inl better ↦ ground (arith, best_fit-le n bs (suc i) j i b d)
      | inr worse ↦ ground (arith, best_fit-le n bs (suc i) j m b best)
    ]

best_fit_kept :
    (n : ℕ) (bs : List Block) (i : ℕ) (best : ℕ × Block) → best_fit n bs i (some best) ≢ none
unfolding best_fit
best_fit_kept n [] i best e = ground arith
best_fit_kept n (c ∷ bs) i best e = elim (Bool-cases (fits n c && is_better c (some best))) [
  | inl taken ↦ best_fit_kept n bs (suc i) (i, c) (ground arith)
  | inr kept ↦ best_fit_kept n bs (suc i) best (ground arith)
]

pub best_fit-ne-none :
    (n : ℕ) (bs : List Block) (i k : ℕ) (best : Option (ℕ × Block)) (c : Block)
    → get_elem? bs k ≡ some c
    → fits n c ≡ true
    → best_fit n bs i best ≢ none
unfolding best_fit
best_fit-ne-none n [] i k best c there fit e = absurd (ground arith)
best_fit-ne-none n (d ∷ bs) i (suc k) best c there fit e =
    best_fit-ne-none n bs (suc i) k _ c there fit e
best_fit-ne-none n (d ∷ bs) i zero none c there fit e =
    best_fit_kept n bs (suc i) (i, d) (ground arith)
best_fit-ne-none n (d ∷ bs) i zero (some best) c there fit e =
    elim (Bool-cases (fits n d && is_better d (some best))) [
      | inl taken ↦ best_fit_kept n bs (suc i) (i, d) (ground arith)
      | inr kept ↦ best_fit_kept n bs (suc i) best (ground arith)
    ]
