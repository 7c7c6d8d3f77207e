-- ===== src/Tests/Arenas.antt =====
-- The theorems on the allocation functions at one request of a mebibyte.
use jsonstreambench.Prelude.{ℕ, ◌*◌, ◌^◌, ◌≡◌, ◌≢◌, ◌<◌, refl, ap, Option, some, inl, inr, arith}
use jsonstreambench.Arena.{
  Arena, Block, pool, no_block, no_arena, large, huge, block_at, allocate, release,
}
use jsonstreambench.Arena.Layout.{IsValid, Fresh, map_length}
use jsonstreambench.Arena.Reuse.{
  here, next, allocates, releases, get_elem?-replicate, no_arena-IsValid, Reach-IsValid,
}
use jsonstreambench.Arena.Handout.{IsHandedOut, allocate-IsHandedOut, allocate-release}

-- Every mapping lies at five mebibytes, and `malloc` has none.
abbrev at_five : ℕ → Option ℕ
at_five len = some (5 * 2 ^ 20)

abbrev no_malloc : ℕ → ℕ
no_malloc n = 0

at_five_lem : (len base : ℕ) → at_five len ≡ some base → base ≡ 5 * 2 ^ 20
at_five_lem len base e = ground arith

at_five-Fresh : Fresh at_five (no_arena pool).blocks (map_length large)
at_five-Fresh = record {
  pos = λ base e. omega (arith, at_five_lem (map_length large) base e);
  top = λ base e. omega (arith, at_five_lem (map_length large) base e);
  apart = λ base i b e h. inr (inl (ap (λ c. c.base) (get_elem?-replicate 256 i no_block b h)));
}

abbrev served : Arena
served = (allocate at_five no_malloc large (no_arena pool)).1

Reach-IsValid_example : IsValid (release (6 * 2 ^ 20) served)
Reach-IsValid_example = Reach-IsValid pool (
    next (next here (allocates (no_arena pool) at_five no_malloc large (omega arith) at_five-Fresh))
      (releases served (6 * 2 ^ 20)))

some_pointer : (allocate at_five no_malloc large (no_arena pool)).0 ≢ 0
unfolding allocate jsonstreambench.Arena.best_fit jsonstreambench.Arena.map_block
    jsonstreambench.Arena.find_free
some_pointer e = absurd (omega arith)

allocate-IsHandedOut_example :
    IsHandedOut large (allocate at_five no_malloc large (no_arena pool)).0 (no_arena pool) served
allocate-IsHandedOut_example =
    allocate-IsHandedOut at_five no_malloc large (omega arith) (omega arith) (no_arena pool) refl
      at_five-Fresh (no_arena-IsValid pool) some_pointer

served-IsValid : IsValid served
served-IsValid =
    Reach-IsValid pool
      (next here (allocates (no_arena pool) at_five no_malloc large (omega arith) at_five-Fresh))

allocate-release_example :
    let r = allocate at_five no_malloc large (release (6 * 2 ^ 20) served) in
    (0 < r.0) × (r.1.calls ≡ served.calls)
unfolding allocate jsonstreambench.Arena.best_fit jsonstreambench.Arena.map_block
    jsonstreambench.Arena.find_free jsonstreambench.Arena.find_block
allocate-release_example =
    allocate-release at_five no_malloc large (omega arith) (6 * 2 ^ 20) served 0
      (block_at (5 * 2 ^ 20) large) served-IsValid refl (omega arith) refl (omega arith)
