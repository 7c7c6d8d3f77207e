-- ===== src/Lines.antt =====
-- src/dom_queries.h, `for_each_line`: the line splitter that every tree-building engine runs.
pub mod Split
pub mod Loop
use jsonstreambench.Prelude.{
  ℕ, zero, suc, ◌+◌, ◌-◌, Bool, true, false, ◌||◌, [], ◌∷◌, Option, none, some, ◌≡◌, refl, arith,
  Bytes, codes, if◌then◌else◌, ltb, ◌==◌, window,
}
use mathlib.Core.Option
use jsonstreambench.Trim.{shrink}

abbrev pub newline : ℕ
newline = b'\n'

-- `memchr` over a whole window: the offset of the first byte `c`.
unfoldable pub memchr : Bytes → ℕ → Option ℕ
memchr [] c = none
memchr (d ∷ s) c = if d == c then some 0 else Option.map suc (memchr s c)

-- `data[stop - 1] == '\r' || data[stop - 1] == ' '`.
unfoldable pub is_line_space : ℕ → Bool
is_line_space c = c == b'\r' || c == b' '

module _ {ℓ} {S : Type ℓ} (data_ : Bytes) (size : ℕ) (f : Bytes → S → S) where
  -- The body between the search and the next position: `[pos, end)` is trimmed, and handed to `f`
  -- if a byte is left.
  line_body : ℕ → ℕ → S → S
  line_body pos end s =
      let n = shrink is_line_space data_ pos (end - pos) in
      if ltb 0 n then f (window data_ pos n) s else s

  -- The loop, with fuel. A line feed at `pos + k` ends the line; without one the line ends at `size`.
  line_loop : ℕ → ℕ → S → S
  unfolding line_body
  line_loop zero pos s = s
  line_loop (suc fuel) pos s =
      let rest : S = elim (memchr (window data_ pos (size - pos)) newline) [
        | some k ↦ line_loop fuel (pos + k + 1) (line_body pos (pos + k) s)
        | none ↦ line_loop fuel size (line_body pos size s)
      ] in
      if ltb pos size then rest else s

-- Each round moves `pos` on, so `size + 1` rounds suffice.
unfoldable pub for_each_line {ℓ} : {S : Type ℓ} → Bytes → ℕ → (Bytes → S → S) → S → S
unfolding line_loop
for_each_line data_ size f = line_loop data_ size f (size + 1) 0
