-- ===== src/Prelude/Windows.antt =====
-- Text as lists of bytes, and a window `[pos, pos + n)` of a buffer.
use Prim.Native.Nat.{ℕ, zero, suc, ◌+◌, ◌-◌, ◌≤◌, ◌<◌}
use Prim.Native.Char.{code}
use Prim.Native.String.{String}
use mathlib.Core.Path.{◌≡◌, refl, sym, ap, ◌∙◌}
use mathlib.Core.List.{List, [], ◌∷◌, ◌++◌}
use native.Mathlib.Omega.{arith}
use jsonstreambench.Prelude.Lists.{
  length, take, drop, get_or, take_append_length, drop_append_length,
}

abbrev pub Bytes : Type 0
Bytes = List ℕ

-- The code points of a literal: its bytes, where the text is ASCII.
abbrev pub codes : String → Bytes
codes String.[] = []
codes (String.◌∷◌ c s) = code c ∷ codes s

-- The byte at `i`; 0 outside the buffer.
abbrev pub byte_at : Bytes → ℕ → ℕ
byte_at s i = get_or s i 0

-- `string_view(data + pos, n)`.
unfoldable pub window : Bytes → ℕ → ℕ → Bytes
window data_ pos n = take n (drop pos data_)

drop_cons : (s : Bytes) (i : ℕ) → i < length s → drop i s ≡ byte_at s i ∷ drop (suc i) s
drop_cons [] i h = absurd (omega arith)
drop_cons (c ∷ s) zero h = refl
drop_cons (c ∷ s) (suc i) h = drop_cons s i (omega arith)

pub window_cons :
    (s : Bytes) (pos n : ℕ)
    → pos < length s
    → window s pos (suc n) ≡ byte_at s pos ∷ window s (suc pos) n
unfolding window
window_cons s pos n h = rw (drop_cons s pos h)

pub window-zero : (s : Bytes) (pos : ℕ) → window s pos 0 ≡ []
unfolding window
window-zero s pos = refl

pub window_snoc :
    (s : Bytes) (pos n : ℕ)
    → pos + n < length s
    → window s pos (suc n) ≡ window s pos n ++ byte_at s (pos + n) ∷ []
window_snoc s pos zero h =
    let e : pos + 0 ≡ pos = omega arith in
    rw (window_cons s pos 0 (omega arith), window-zero s (suc pos), window-zero s pos, e)
window_snoc s pos (suc n) h =
    let e : pos + suc n ≡ suc pos + n = omega arith in
    rw (window_cons s pos (suc n) (omega arith), window_cons s pos n (omega arith), e)
      (ap (λ t. byte_at s pos ∷ t) (window_snoc s (suc pos) n (omega arith)))

pub window_split :
    (s : Bytes) (pos m n : ℕ)
    → pos + m ≤ length s
    → window s pos (m + n) ≡ window s pos m ++ window s (pos + m) n
window_split s pos zero n h =
    let e : pos + 0 ≡ pos = omega arith in
    let d : 0 + n ≡ n = omega arith in rw (window-zero s pos, e, d)
window_split s pos (suc m) n h =
    let e : pos + suc m ≡ suc pos + m = omega arith in
    let d : suc m + n ≡ suc (m + n) = omega arith in
    rw (d, window_cons s pos (m + n) (omega arith), window_cons s pos m (omega arith), e)
      (ap (λ t. byte_at s pos ∷ t) (window_split s (suc pos) m n (omega arith)))

length-take-drop : (s : Bytes) (pos n : ℕ) → pos + n ≤ length s → length (take n (drop pos s)) ≡ n
length-take-drop s pos zero h = refl
length-take-drop [] pos (suc n) h = absurd (omega arith)
length-take-drop (c ∷ s) zero (suc n) h = ap suc (length-take-drop s 0 n (omega arith))
length-take-drop (c ∷ s) (suc pos) (suc n) h = length-take-drop s pos (suc n) (omega arith)

pub length-window : (s : Bytes) (pos n : ℕ) → pos + n ≤ length s → length (window s pos n) ≡ n
unfolding window
length-window = length-take-drop

split_at :
    (s : Bytes) (pos m n : ℕ)
    → m ≤ n
    → pos + n ≤ length s
    → window s pos n ≡ window s pos m ++ window s (pos + m) (n - m)
split_at s pos m n h p =
    let e : m + (n - m) ≡ n = omega arith in
    ap (window s pos) (sym e) ∙ window_split s pos m (n - m) (omega arith)

-- The first bytes of a window, and those behind them, are windows.
pub take-window :
    (s : Bytes) (pos m n : ℕ)
    → m ≤ n
    → pos + n ≤ length s
    → take m (window s pos n) ≡ window s pos m
take-window s pos m n h p =
    let front = window s pos m in
    let e : length front ≡ m = length-window s pos m (omega arith) in
    ap (take m) (split_at s pos m n h p)
    ∙ ap (λ k. take k (front ++ window s (pos + m) (n - m))) (sym e)
    ∙ take_append_length front _

pub drop-window :
    (s : Bytes) (pos m n : ℕ)
    → m ≤ n
    → pos + n ≤ length s
    → drop m (window s pos n) ≡ window s (pos + m) (n - m)
drop-window s pos m n h p =
    let front = window s pos m in
    let e : length front ≡ m = length-window s pos m (omega arith) in
    ap (drop m) (split_at s pos m n h p)
    ∙ ap (λ k. drop k (front ++ window s (pos + m) (n - m))) (sym e)
    ∙ drop_append_length front _
