-- ===== src/Arena/Layout.antt =====
-- src/cujson_baseline/cujson_baseline.cpp: where the blocks lie.
use jsonstreambench.Prelude.{
  ℕ, ◌+◌, ◌*◌, ◌%◌, ◌≤◌, ◌<◌, ◌≡◌, ◌≢◌, refl, sym, ◌∙◌, Bool, true, false, ◌||◌, List, Option, none,
  some, arith, ◌⊎◌, inl, inr, ltb, ◌==◌, set, get_elem?, length, length-set, u64_mod, Bool-cases,
  Option-cases,
}
use jsonstreambench.Arena.{
  large, huge, Block, no_block, Call, Arena, find_block, find_free, round_up, block_at, is_malloc,
  is_pool, enter_block, map_answer, map_block, best_fit, reuse, allocate, release_block, release,
}
use jsonstreambench.Arena.Table.{set_cases, find_block-Found, best_fit-Found}

-- What lies in a mapping: an aligned block for large requests.
pub record IsBlock (b : Block) : Type 0 where
  pub low : b.base ≤ b.user
  pub high : b.user + b.capacity ≤ b.base + b.map_size
  pub top : b.base + b.map_size ≤ u64_mod
  pub aligned : b.user % huge ≡ 0
  pub large_enough : large ≤ b.capacity

abbrev pub Shaped : Block → Type 0
Shaped b = (b.base ≡ 0) ⊎ IsBlock b

Shaped-in_use : (used : Bool) (b : Block) → Shaped b → Shaped (record b { in_use = used })
Shaped-in_use used b (inl e) = inl e
Shaped-in_use used b (inr s) = inr (record {
  low = s.low;
  high = s.high;
  top = s.top;
  aligned = s.aligned;
  large_enough = s.large_enough;
})

-- Two mappings that do not overlap; one that is not there is at 0.
abbrev pub Apart : ℕ → ℕ → ℕ → ℕ → Type 0
Apart x m y k = (x ≡ 0) ⊎ (y ≡ 0) ⊎ (x + m ≤ y) ⊎ (y + k ≤ x)

pub record IsValid (a : Arena) : Type 0 where
  pub size : length a.blocks ≡ 256
  pub shaped : (i : ℕ) (b : Block) → get_elem? a.blocks i ≡ some b → Shaped b
  pub apart :
      (i j : ℕ) (b c : Block)
      → i ≢ j
      → get_elem? a.blocks i ≡ some b
      → get_elem? a.blocks j ≡ some c
      → Apart b.base b.map_size c.base c.map_size

-- What the system promises of a mapping of `len` bytes.
pub record Fresh (answer : ℕ → Option ℕ) (bs : List Block) (len : ℕ) : Type 0 where
  pub pos : (base : ℕ) → answer len ≡ some base → 0 < base
  pub top : (base : ℕ) → answer len ≡ some base → base + len ≤ u64_mod
  pub apart :
      (base i : ℕ) (b : Block)
      → answer len ≡ some base
      → get_elem? bs i ≡ some b
      → Apart base len b.base b.map_size

-- A new entry that is apart from the others.
put-IsValid :
    (a : Arena) (cs : List Call) (i : ℕ) (v : Block)
    → IsValid a
    → Shaped v
    → ((j : ℕ) (c : Block)
        → i ≢ j
        → get_elem? a.blocks j ≡ some c
        → Apart v.base v.map_size c.base c.map_size)
    → IsValid (record a { blocks = set a.blocks i v; calls = cs })
put-IsValid a cs i v valid shape clear = record {
  size = length-set a.blocks i v ∙ valid.size;
  shaped = λ j b h. elim (set_cases a.blocks i j v b h) [
    | inl (e, new) ↦ rw new shape
    | inr (n, old) ↦ valid.shaped j b old
  ];
  apart = λ j k b c n hb hc. elim (set_cases a.blocks i j v b hb) [
    | inl (e, new) ↦ elim (set_cases a.blocks i k v c hc) [
      | inl (e', new') ↦ absurd (n (e ∙ sym e'))
      | inr (n', old') ↦ rw new (clear k c (λ x. n' (sym x)) old')
    ]
    | inr (m, old) ↦ elim (set_cases a.blocks i k v c hc) [
      | inl (e', new') ↦ rw new' (ground (arith, clear j b (λ x. m (sym x)) old))
      | inr (n', old') ↦ valid.apart j k b c n old old'
    ]
  ];
}

-- Only the calls differ.
log-IsValid : (a : Arena) (cs : List Call) → IsValid a → IsValid (record a { calls = cs })
log-IsValid a cs valid = record { size = valid.size; shaped = valid.shaped; apart = valid.apart }

pub round_up_lem :
    (n : ℕ)
    → n + huge ≤ u64_mod
    → (n ≤ round_up n) × (round_up n < n + huge) × (round_up n % huge ≡ 0)
round_up_lem n h = (omega arith, omega arith, omega arith)

-- The length of the mapping for a request.
abbrev pub map_length : ℕ → ℕ
map_length n = (round_up n + huge) % u64_mod

module _ (answer : ℕ → Option ℕ) (malloc : ℕ → ℕ) (n : ℕ) (room : n + 2 * huge ≤ u64_mod) where
  pub length_lem : map_length n ≡ round_up n + huge
  length_lem = let r = round_up_lem n (omega arith) in omega arith

  pub block_at-IsBlock :
      (base : ℕ) → large ≤ n → base + map_length n ≤ u64_mod → IsBlock (block_at base n)
  block_at-IsBlock base big top =
      let (a, b, c) = round_up_lem n (omega arith) in
      let (d, e, f) = round_up_lem base (omega (arith, length_lem)) in
      record {
        low = d;
        high = omega (arith, length_lem);
        top = top;
        aligned = f;
        large_enough = omega arith;
      }

  map_block-IsValid :
      (a : Arena)
      → large ≤ n
      → Fresh answer a.blocks (map_length n)
      → IsValid a
      → IsValid (map_block answer n a).1
  unfolding map_block map_answer enter_block
  map_block-IsValid a big fresh valid = elim (Option-cases (answer (map_length n))) [
    | inl failed ↦ rw (failed, map_answer) (log-IsValid a _ valid)
    | inr (base, mapped) ↦
        rw (mapped, map_answer)
          (elim (Option-cases (find_free a.blocks 0)) [
            | inl full ↦ rw (full, enter_block) (log-IsValid a _ valid)
            | inr (i, at) ↦
                rw (at, enter_block)
                  (put-IsValid a _ i (block_at base n) valid
                    (inr (block_at-IsBlock base big (fresh.top base mapped)))
                    (λ j c _ there. fresh.apart base j c mapped there))
          ])
  ]

  reuse-IsValid :
      (a : Arena)
      → large ≤ n
      → Fresh answer a.blocks (map_length n)
      → IsValid a
      → IsValid (reuse answer n (best_fit n a.blocks 0 none) a).1
  unfolding reuse
  reuse-IsValid a big fresh valid = elim (Option-cases (best_fit n a.blocks 0 none)) [
    | inl nothing ↦ rw (nothing, reuse) (map_block-IsValid a big fresh valid)
    | inr ((i, b), best) ↦ elim (best_fit-Found n a.blocks 0 none i b best) [
      | inl impossible ↦ absurd (ground arith)
      | inr found ↦
          let same : i ≡ found.at = omega (arith, found.index) in
          let there : get_elem? a.blocks i ≡ some b = rw same found.there in
          rw (best, reuse)
            (put-IsValid a a.calls i (record b { in_use = true }) valid
              (Shaped-in_use _ b (valid.shaped i b there))
              (λ j c ne at. valid.apart i j b c ne there at))
    ]
  ]

  pub allocate-IsValid :
      (a : Arena)
      → Fresh answer a.blocks (map_length n)
      → IsValid a
      → IsValid (allocate answer malloc n a).1
  unfolding allocate
  allocate-IsValid a fresh valid = elim (Bool-cases (ltb n large || is_malloc a.mode)) [
    | inl small ↦ rw small valid
    | inr big ↦ rw big (elim (Bool-cases (is_pool a.mode)) [
      | inl pooled ↦ rw pooled (reuse-IsValid a (ground arith) fresh valid)
      | inr fixed ↦ rw fixed (map_block-IsValid a (ground arith) fresh valid)
    ])
  ]

pub release-IsValid : (p : ℕ) (a : Arena) → IsValid a → IsValid (release p a)
unfolding release release_block
release-IsValid p a valid = elim (Bool-cases (p == 0)) [
  | inl null ↦ rw null valid
  | inr some_block ↦ rw some_block (elim (Option-cases (find_block p a.blocks 0)) [
    | inl foreign ↦ rw (foreign, release_block) (log-IsValid a _ valid)
    | inr ((i, b), at) ↦
        let found = find_block-Found p a.blocks 0 i b at in
        let same : i ≡ found.at = omega (arith, found.index) in
        let there : get_elem? a.blocks i ≡ some b = rw same found.there in
        rw (at, release_block)
          (elim (Bool-cases (is_pool a.mode)) [
            | inl pooled ↦ rw pooled (
                put-IsValid a a.calls i (record b { in_use = false }) valid
                  (Shaped-in_use _ b (valid.shaped i b there))
                  (λ j c ne h. valid.apart i j b c ne there h))
            | inr fixed ↦
                rw fixed (put-IsValid a _ i no_block valid (inl refl) (λ j c ne h. inl refl))
          ])
  ])
]
