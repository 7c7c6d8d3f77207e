-- ===== src/Slicing.antt =====
-- The slicing rule: src/dom_parallel.h, `snap_to_newline`, and src/parallel_stream.h, `slice_at`.
pub mod Bounds
pub mod Cover
pub mod Slices
use jsonstreambench.Prelude.{
  ℕ, zero, suc, ◌+◌, ◌-◌, ◌*◌, ◌/◌, ◌%◌, Bool, true, false, ◌||◌, [], none, some, arith, Bytes,
  if◌then◌else◌, ltb, leb, ◌==◌, length, window, u64_mod,
}
use jsonstreambench.Lines.{newline, memchr}

-- The first position behind a delimiter that stands at `want` or later, or `hi`.
unfoldable pub snap : Bytes → ℕ → ℕ → ℕ → ℕ
snap data_ hi delimiter want =
    if leb hi want then hi else elim (memchr (window data_ want (hi - want)) delimiter) [
      | some k ↦ want + k + 1
      | none ↦ hi
    ]

unfoldable pub snap_to_newline : Bytes → ℕ → ℕ → ℕ
snap_to_newline data_ hi want = snap data_ hi newline want

-- The slice with an index; `{}`, an empty view, where there is none. `size_t` sums wrap.
unfoldable pub slice_at : Bytes → ℕ → ℕ → ℕ → Bytes
slice_at data_ delimiter block_size index =
    let size = length data_ in
    let raw_begin = index * block_size in
    let begin = if raw_begin == 0 then 0 else snap data_ size delimiter raw_begin in
    let end = snap data_ size delimiter ((raw_begin + block_size) % u64_mod) in
    if block_size == 0 || ltb (size / block_size) index
    then []
    else if leb size raw_begin
    then []
    else if leb end begin
    then []
    else window data_ begin (end - begin)
