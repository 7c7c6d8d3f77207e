-- ===== src/Lines/Split.antt =====
-- The lines and the documents of a text, said without positions.
use jsonstreambench.Prelude.{
  ℕ, suc, ◌+◌, ◌≤◌, ◌<◌, ◌≡◌, refl, ap, ◌∙◌, Bool, true, false, List, [], ◌∷◌, ◌++◌, arith, ◌⊎◌,
  inl, inr, none, some, Bytes, length, take, drop, if◌then◌else◌, ◌==◌, Bool-cases, Option-cases,
}
use jsonstreambench.Trim.{rtrim}
use jsonstreambench.Lines.{memchr, newline, is_line_space}

-- A byte in front of the first line.
unfoldable pub extend : ℕ → List Bytes → List Bytes
extend c [] = (c ∷ []) ∷ []
extend c (l ∷ ls) = (c ∷ l) ∷ ls

-- The lines of a text without their line feeds. The last line need not end in one.
unfoldable pub lines : Bytes → List Bytes
lines [] = []
lines (c ∷ s) = if c == newline then [] ∷ lines s else extend c (lines s)

unfoldable pub is_nil : Bytes → Bool
is_nil [] = true
is_nil (c ∷ l) = false

-- The lines without carriage returns and blanks at their ends, and of these those with a byte left.
unfoldable pub documents_of : List Bytes → List Bytes
documents_of [] = []
documents_of (l ∷ ls) =
    let d = rtrim is_line_space l in if is_nil d then documents_of ls else d ∷ documents_of ls

-- The documents of a text of JSON lines.
unfoldable pub documents : Bytes → List Bytes
documents s = documents_of (lines s)

-- Where the search ends: at the first byte, or in the rest.
pub found_cases :
    (c : ℕ) (s : Bytes) (k : ℕ)
    → memchr (c ∷ s) newline ≡ some k
    → ((c == newline) ≡ true) × (k ≡ 0)
      ⊎ (((c == newline) ≡ false) × ((j : ℕ) × (memchr s newline ≡ some j) × (k ≡ suc j)))
unfolding memchr
found_cases c s k h = elim (Bool-cases (c == newline)) [
  | inl e ↦ inl (e, ground arith)
  | inr e ↦ elim (Option-cases (memchr s newline)) [
    | inl n ↦ absurd (ground arith)
    | inr (j, m) ↦ inr (e, (j, m, ground arith))
  ]
]

-- A line feed at `k` ends the first line there.
pub lines_found :
    (s : Bytes) (k : ℕ)
    → memchr s newline ≡ some k
    → (lines s ≡ take k s ∷ lines (drop (suc k) s)) × (k < length s)
unfolding lines extend
lines_found [] k h = absurd (unfold memchr in ground arith)
lines_found (c ∷ s) k h = elim (found_cases c s k h) [
  | inl (e, z) ↦ (rw (e, z), omega arith)
  | inr (e, (j, m, z)) ↦ let (split, within) = lines_found s j m in (rw (e, z, split), omega arith)
]

pub lines_not_found : (s : Bytes) → memchr s newline ≡ none → (0 < length s) → lines s ≡ s ∷ []
unfolding memchr lines extend
lines_not_found [] h p = absurd (omega arith)
lines_not_found (c ∷ []) h p = ground arith
lines_not_found (c ∷ d ∷ s) h p = ground (arith, lines_not_found (d ∷ s))

-- A text that ends in a line feed, or is empty.
pub data IsWhole : Bytes → Type 0 where
  empty : IsWhole []
  ended : (s : Bytes) → IsWhole (s ++ newline ∷ [])

first_line : (s : Bytes) → (l : Bytes) × (ls : List Bytes) × (lines (s ++ newline ∷ []) ≡ l ∷ ls)
unfolding lines extend
first_line [] = ([], [], refl)
first_line (c ∷ s) = elim (Bool-cases (c == newline)) [
  | inl e ↦ ([], lines (s ++ newline ∷ []), rw e)
  | inr e ↦ let (l, ls, first) = first_line s in (c ∷ l, ls, rw (e, first))
]

lines_ended :
    (s t : Bytes) → lines ((s ++ newline ∷ []) ++ t) ≡ lines (s ++ newline ∷ []) ++ lines t
unfolding lines extend
lines_ended [] t = refl
lines_ended (c ∷ s) t =
    let (l, ls, first) = first_line s in
    elim (Bool-cases (c == newline)) [
      | inl e ↦ rw (e, lines_ended s t)
      | inr e ↦ rw (e, lines_ended s t, first)
    ]

documents_of-append :
    (ls ms : List Bytes) → documents_of (ls ++ ms) ≡ documents_of ls ++ documents_of ms
unfolding documents_of
documents_of-append [] ms = refl
documents_of-append (l ∷ ls) ms = ground (arith, documents_of-append ls ms)

-- Behind a line feed a text may be cut: the documents of the parts are those of the whole.
pub documents-append :
    {s : Bytes} (t : Bytes) → IsWhole s → documents (s ++ t) ≡ documents s ++ documents t
unfolding documents
documents-append t empty = unfold lines documents_of in refl
documents-append t (ended s) =
    ap documents_of (lines_ended s t) ∙ documents_of-append (lines (s ++ newline ∷ [])) (lines t)

-- All the bytes of some lines.
unfoldable pub total_length : List Bytes → ℕ
total_length [] = 0
total_length (d ∷ ds) = length d + total_length ds

total_length-extend : (c : ℕ) (ls : List Bytes) → total_length (extend c ls) ≡ suc (total_length ls)
unfolding total_length extend
total_length-extend c [] = omega arith
total_length-extend c (l ∷ ls) = omega arith

pub total_length-lines : (s : Bytes) → total_length (lines s) ≤ length s
unfolding total_length lines
total_length-lines [] = omega arith
total_length-lines (c ∷ s) = ground (arith, total_length-lines s, total_length-extend c (lines s))
