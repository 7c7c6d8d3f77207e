-- ===== src/Arena.antt =====
-- src/cujson_baseline/cujson_baseline.cpp: the allocation functions that replace the global ones.
-- An address is a number and the null pointer is 0. The answers of `mmap` and of `malloc` are
-- arguments, and what is asked of the system is a list of calls.
pub mod Table
pub mod Layout
pub mod Reuse
pub mod Handout
use jsonstreambench.Prelude.{
  ℕ, suc, ◌+◌, ◌-◌, ◌*◌, ◌/◌, ◌%◌, ◌^◌, Bool, true, false, ◌&&◌, ◌||◌, not, List, [], ◌∷◌, ◌++◌,
  Option, none, some, if◌then◌else◌, ltb, leb, ◌==◌, set, replicate, u64_mod,
}

pub data AllocMode : Type 0 where
  malloc_ small_pages huge_pages pool : AllocMode

abbrev pub large : ℕ
large = 2 ^ 20

abbrev pub huge : ℕ
huge = 2 * 2 ^ 20

pub record Block : Type 0 where
  pub base : ℕ
  pub map_size : ℕ
  pub user : ℕ
  pub capacity : ℕ
  pub in_use : Bool

abbrev pub no_block : Block
no_block = record { base = 0; map_size = 0; user = 0; capacity = 0; in_use = false }

-- What is asked of the system; the Boolean of `madvise` is `MADV_HUGEPAGE`.
pub data Call : Type 0 where
  mmap : ℕ → Call
  madvise : ℕ → ℕ → Bool → Call
  munmap : ℕ → ℕ → Call
  free : ℕ → Call

pub record Arena : Type 0 where
  pub mode : AllocMode
  pub blocks : List Block
  pub calls : List Call

abbrev pub no_arena : AllocMode → Arena
no_arena m = record { mode = m; blocks = replicate 256 no_block; calls = [] }

abbrev pub is_mapped : Block → Bool
is_mapped b = not (b.base == 0)

-- The blocks of a table stand for their index.
unfoldable pub find_block : ℕ → List Block → ℕ → Option (ℕ × Block)
find_block p [] i = none
find_block p (b ∷ bs) i =
    if is_mapped b && b.user == p then some (i, b) else find_block p bs (suc i)

-- The first entry without a mapping.
unfoldable pub find_free : List Block → ℕ → Option ℕ
find_free [] i = none
find_free (b ∷ bs) i = if b.base == 0 then some i else find_free bs (suc i)

abbrev pub is_small_pages : AllocMode → Bool
is_small_pages small_pages = true
is_small_pages _ = false

abbrev pub is_malloc : AllocMode → Bool
is_malloc malloc_ = true
is_malloc _ = false

abbrev pub is_pool : AllocMode → Bool
is_pool pool = true
is_pool _ = false

abbrev pub round_up : ℕ → ℕ
round_up n = (n + huge - 1) % u64_mod / huge * huge

-- The block for a request of `n` bytes in a mapping at `base`.
abbrev pub block_at : ℕ → ℕ → Block
block_at base n = record {
  base = base;
  map_size = (round_up n + huge) % u64_mod;
  user = round_up base;
  capacity = round_up n;
  in_use = true;
}

abbrev pub log : List Call → Arena → Arena
log cs a = record a { calls = a.calls ++ cs }

unfoldable pub enter_block : ℕ → ℕ → Option ℕ → Arena → ℕ × Arena
enter_block base n (some i) a =
    ((block_at base n).user, record a { blocks = set a.blocks i (block_at base n) })
enter_block base n none a = (0, log (munmap base ((round_up n + huge) % u64_mod) ∷ []) a)

-- `answer` is what `mmap` returns for a length; `none` is `MAP_FAILED`.
unfoldable pub map_answer : ℕ → Option ℕ → Arena → ℕ × Arena
unfolding enter_block
map_answer n none a = (0, a)
map_answer n (some base) a =
    enter_block base n (find_free a.blocks 0)
      (log (madvise (round_up base) (round_up n) (not (is_small_pages a.mode)) ∷ []) a)

unfoldable pub map_block : (ℕ → Option ℕ) → ℕ → Arena → ℕ × Arena
unfolding map_answer
map_block answer n a =
    let len = (round_up n + huge) % u64_mod in map_answer n (answer len) (log (mmap len ∷ []) a)

-- `!best || b.capacity < best->capacity`.
abbrev pub is_better : Block → Option (ℕ × Block) → Bool
is_better b none = true
is_better b (some (i, best)) = ltb b.capacity best.capacity

abbrev pub fits : ℕ → Block → Bool
fits n b = is_mapped b && not b.in_use && leb n b.capacity

-- Best fit among the freed blocks.
unfoldable pub best_fit : ℕ → List Block → ℕ → Option (ℕ × Block) → Option (ℕ × Block)
best_fit n [] i best = best
best_fit n (b ∷ bs) i best =
    best_fit n bs (suc i) (if fits n b && is_better b best then some (i, b) else best)

unfoldable pub reuse : (ℕ → Option ℕ) → ℕ → Option (ℕ × Block) → Arena → ℕ × Arena
reuse answer n (some (i, best)) a =
    (best.user, record a { blocks = set a.blocks i (record best { in_use = true }) })
reuse answer n none a = map_block answer n a

unfoldable pub allocate : (ℕ → Option ℕ) → (ℕ → ℕ) → ℕ → Arena → ℕ × Arena
unfolding reuse
allocate answer malloc n a =
    if ltb n large || is_malloc a.mode
    then (malloc (if n == 0 then 1 else n), a)
    else if is_pool a.mode
    then reuse answer n (best_fit n a.blocks 0 none) a
    else map_block answer n a

unfoldable pub release_block : ℕ → Option (ℕ × Block) → Arena → Arena
release_block p none a = log (free p ∷ []) a
release_block p (some (i, b)) a =
    if is_pool a.mode
    then record a { blocks = set a.blocks i (record b { in_use = false }) }
    else record a {
      blocks = set a.blocks i no_block;
      calls = a.calls ++ munmap b.base b.map_size ∷ [];
    }

unfoldable pub release : ℕ → Arena → Arena
unfolding release_block
release p a = if p == 0 then a else release_block p (find_block p a.blocks 0) a

-- `operator new`: `none` is `std::bad_alloc`; the nothrow forms return the pointer as it is.
unfoldable pub operator_new : (ℕ → Option ℕ) → (ℕ → ℕ) → ℕ → Arena → Option ℕ × Arena
operator_new answer malloc n a =
    let (p, a') = allocate answer malloc n a in (if p == 0 then none else some p, a')
