-- ===== src/Arena/Handout.antt =====
-- src/cujson_baseline/cujson_baseline.cpp: the pointers that `allocate` hands out for large
-- requests, by way of a new mapping or of a freed block.
use mathlib.Core.Path.{subst}
use jsonstreambench.Prelude.{
  ℕ, ◌+◌, ◌*◌, ◌%◌, ◌≤◌, ◌<◌, ◌≡◌, ◌≢◌, refl, true, false, ◌||◌, Option, none, some, arith, ◌⊎◌,
  inl, inr, ltb, ◌==◌, set, get_elem?, u64_mod, Bool-cases, Option-cases,
}
use jsonstreambench.Arena.{
  pool, large, huge, Block, Arena, find_block, find_free, block_at, is_malloc, is_pool, enter_block,
  map_answer, map_block, fits, best_fit, reuse, allocate, release_block, release,
}
use jsonstreambench.Arena.Table.{get_elem?-set, find_block-Found, find_free-Found, best_fit-Found}
use jsonstreambench.Arena.Layout.{
  IsBlock, Shaped, Apart, IsValid, Fresh, map_length, round_up_lem, block_at-IsBlock,
  release-IsValid,
}
use jsonstreambench.Arena.Reuse.{best_fit-least, best_fit-ne-none}

-- A pointer handed out for `n` bytes: it is aligned, the table has its block, and no block in use
-- before is touched.
pub record IsHandedOut (n p : ℕ) (before after : Arena) : Type 0 where
  pub aligned : p % huge ≡ 0
  pub index : ℕ
  pub block : Block
  pub entered : get_elem? after.blocks index ≡ some block
  pub user : block.user ≡ p
  pub in_use : block.in_use ≡ true
  pub room : n ≤ block.capacity
  pub separate :
      (j : ℕ) (c : Block)
      → get_elem? before.blocks j ≡ some c
      → c.base ≢ 0
      → c.in_use ≡ true
      → (p + n ≤ c.user) ⊎ (c.user + c.capacity ≤ p)

module _ (answer : ℕ → Option ℕ) (malloc : ℕ → ℕ) (n : ℕ) (big : large ≤ n) where
  best : Arena → Option (ℕ × Block)
  best a = best_fit n a.blocks 0 none

  Apart-separate :
      (b c : Block)
      → IsBlock b
      → Shaped c
      → b.base ≢ 0
      → c.base ≢ 0
      → n ≤ b.capacity
      → Apart b.base b.map_size c.base c.map_size
      → (b.user + n ≤ c.user) ⊎ (c.user + c.capacity ≤ b.user)
  Apart-separate b c s (inl e) nb nc room a = absurd (nc e)
  Apart-separate b c s (inr t) nb nc room (inl e) = absurd (nb e)
  Apart-separate b c s (inr t) nb nc room (inr (inl e)) = absurd (nc e)
  Apart-separate b c s (inr t) nb nc room (inr (inr (inl le))) = inl (omega arith)
  Apart-separate b c s (inr t) nb nc room (inr (inr (inr le))) = inr (omega arith)

  -- A block that is found fits and is well-formed.
  found_fit :
      (a : Arena) (i : ℕ) (b : Block)
      → IsValid a
      → best a ≡ some (i, b)
      → (get_elem? a.blocks i ≡ some b) × (fits n b ≡ true) × (b.base ≢ 0) × IsBlock b
  unfolding best
  found_fit a i b valid h = elim (best_fit-Found n a.blocks 0 none i b h) [
    | inl impossible ↦ absurd (ground arith)
    | inr found ↦
        let same : i ≡ found.at = omega (arith, found.index) in
        let there : get_elem? a.blocks i ≡ some b = rw same found.there in
        let fit : fits n b ≡ true = found.holds in
        let mapped : b.base ≢ 0 = ground arith in
        (
          there,
          fit,
          mapped,
          elim (valid.shaped i b there) [ inl e ↦ absurd (mapped e) | inr s ↦ s ],
        )
  ]

  module _ (room : n + 2 * huge ≤ u64_mod) where
    map_block-IsHandedOut :
        (a : Arena)
        → Fresh answer a.blocks (map_length n)
        → IsValid a
        → (map_block answer n a).0 ≢ 0
        → IsHandedOut n (map_block answer n a).0 a (map_block answer n a).1
    unfolding map_block map_answer enter_block
    map_block-IsHandedOut a fresh valid = elim (Option-cases (answer (map_length n))) [
      | inl failed ↦ rw (failed, map_answer) (λ p. absurd (p refl))
      | inr (base, mapped) ↦
          rw (mapped, map_answer)
            (elim (Option-cases (find_free a.blocks 0)) [
              | inl full ↦ rw (full, enter_block) (λ p. absurd (p refl))
              | inr (i, at) ↦
                  let (old, found) = find_free-Found a.blocks 0 i at in
                  let same : i ≡ found.at = omega (arith, found.index) in
                  let s = block_at-IsBlock answer malloc n room base big (fresh.top base mapped) in
                  let new : (block_at base n).base ≢ 0 =
                    λ e. absurd (omega (arith, fresh.pos base mapped)) in
                  let fit = (round_up_lem n (omega arith)).0 in
                  rw (at, enter_block)
                    (λ p. record {
                      aligned = s.aligned;
                      index = i;
                      block = block_at base n;
                      entered =
                          get_elem?-set a.blocks i (block_at base n) old (rw same found.there);
                      user = refl;
                      in_use = refl;
                      room = fit;
                      separate = λ j c there nc used.
                          Apart-separate (block_at base n) c s (valid.shaped j c there) new nc fit
                            (fresh.apart base j c mapped there);
                    })
            ])
    ]

    reuse-IsHandedOut :
        (a : Arena)
        → Fresh answer a.blocks (map_length n)
        → IsValid a
        → (reuse answer n (best a) a).0 ≢ 0
        → IsHandedOut n (reuse answer n (best a) a).0 a (reuse answer n (best a) a).1
    unfolding reuse
    reuse-IsHandedOut a fresh valid = elim (Option-cases (best a)) [
      | inl nothing ↦ rw (nothing, reuse) (map_block-IsHandedOut a fresh valid)
      | inr ((i, b), found) ↦
          let (there, fit, mapped, s) = found_fit a i b valid found in
          let freed : b.in_use ≡ false = ground arith in
          let wide : n ≤ b.capacity = ground arith in
          rw (found, reuse)
            (λ p. record {
              aligned = s.aligned;
              index = i;
              block = record b { in_use = true };
              entered = get_elem?-set a.blocks i (record b { in_use = true }) b there;
              user = refl;
              in_use = refl;
              room = wide;
              separate = λ j c at nc used.
                  let other : i ≢ j = λ e.
                    absurd
                      (let same : get_elem? a.blocks j ≡ some b = rw (← e) there in ground arith) in
                  Apart-separate b c s (valid.shaped j c at) mapped nc wide
                    (valid.apart i j b c other there at);
            })
    ]

    -- A pointer other than null that `allocate` returns, in a valid arena that does not leave
    -- the request to `malloc`, for a request of a mebibyte or more that does not wrap, is
    -- aligned to 2 MiB and belongs to an entry of the table in use with room for the request;
    -- its bytes are apart from those of every block in use before.
    pub allocate-IsHandedOut :
        (a : Arena)
        → is_malloc a.mode ≡ false
        → Fresh answer a.blocks (map_length n)
        → IsValid a
        → (allocate answer malloc n a).0 ≢ 0
        → IsHandedOut n (allocate answer malloc n a).0 a (allocate answer malloc n a).1
    unfolding allocate best
    allocate-IsHandedOut a mode fresh valid =
        let mapped : (ltb n large || is_malloc a.mode) ≡ false = ground arith in
        rw mapped (elim (Bool-cases (is_pool a.mode)) [
          | inl pooled ↦ rw pooled (reuse-IsHandedOut a fresh valid)
          | inr fixed ↦ rw fixed (map_block-IsHandedOut a fresh valid)
        ])

  -- A freed block that fits is enough: the smallest one is handed out without a system call.
  pub allocate-best :
      (a : Arena) (k : ℕ) (c : Block)
      → IsValid a
      → a.mode ≡ pool
      → get_elem? a.blocks k ≡ some c
      → fits n c ≡ true
      → let r = allocate answer malloc n a in
        (r.1.calls ≡ a.calls)
        × (i : ℕ) × (b : Block) × (get_elem? a.blocks i ≡ some b)
        × (r.0 ≡ b.user)
        × (0 < r.0)
        × (fits n b ≡ true)
        × (b.capacity ≤ c.capacity)
  unfolding allocate reuse best
  allocate-best a k c valid mode there fit =
      let mapped : (ltb n large || is_malloc a.mode) ≡ false = rw mode (ground arith) in
      let pooled : is_pool a.mode ≡ true = rw mode refl in
      rw (mapped, pooled)
        (elim (Option-cases (best a)) [
          | inl nothing ↦ absurd (best_fit-ne-none n a.blocks 0 k none c there fit nothing)
          | inr ((i, b), found) ↦
              let (at, fine, based, s) = found_fit a i b valid found in
              rw (found, reuse)
                (
                  refl,
                  i,
                  b,
                  at,
                  refl,
                  omega (arith, s.low),
                  fine,
                  best_fit-least n a.blocks 0 i k none b c found there fit,
                )
        ])

  -- In pool mode and a valid arena, memory given back to the pool serves the next request of a
  -- mebibyte or more that is no larger than its block: a pointer is handed out, and nothing is
  -- asked of the system.
  pub allocate-release :
      (p : ℕ) (a : Arena) (i : ℕ) (b : Block)
      → IsValid a
      → a.mode ≡ pool
      → 0 < p
      → find_block p a.blocks 0 ≡ some (i, b)
      → n ≤ b.capacity
      → let r = allocate answer malloc n (release p a) in (0 < r.0) × (r.1.calls ≡ a.calls)
  unfolding release release_block
  allocate-release p a i b valid mode pos at room =
      let found = find_block-Found p a.blocks 0 i b at in
      let same : i ≡ found.at = omega (arith, found.index) in
      let pooled : is_pool a.mode ≡ true = rw mode refl in
      let some_block : (p == 0) ≡ false = ground arith in
      let freed = record b { in_use = false } in
      let free_arena = record a { blocks = set a.blocks i freed } in
      let e : release p a ≡ free_arena = rw (some_block, at, release_block, pooled) refl in
      let (calls, j, c, there, user, positive, fit, le) =
        allocate-best free_arena i freed (subst IsValid e (release-IsValid p a valid)) mode
          (get_elem?-set a.blocks i freed b (rw same found.there)) (ground arith) in
      rw e (positive, calls)
