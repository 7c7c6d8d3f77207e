-- ===== src/Trim.antt =====
-- The loop `while (n > 0 && drop(data[pos + n - 1])) n--` that src/common.h, src/loaders.h and
-- src/dom_queries.h write out for their own sets of bytes, and what it leaves.
use jsonstreambench.Prelude.{
  ℕ, zero, suc, ◌+◌, ◌≤◌, ◌≡◌, refl, ◌∙◌, sym, Bool, true, false, [], ◌∷◌, ◌++◌, arith, Bytes,
  byte_at, if◌then◌else◌, Bool-cases, inl, inr, window, window_snoc, window-zero, length,
}

-- The count that the loop leaves, started with `n` bytes behind `pos`.
unfoldable pub shrink : (ℕ → Bool) → Bytes → ℕ → ℕ → ℕ
shrink p s pos zero = zero
shrink p s pos (suc n) = if p (byte_at s (pos + n)) then shrink p s pos n else suc n

pub shrink-le : (p : ℕ → Bool) (s : Bytes) (pos n : ℕ) → shrink p s pos n ≤ n
unfolding shrink
shrink-le p s pos zero = omega arith
shrink-le p s pos (suc n) = ground (arith, shrink-le p s pos n)

-- A text without the bytes of a set at its end.
unfoldable pub rtrim : (ℕ → Bool) → Bytes → Bytes
rtrim p [] = []
rtrim p (c ∷ s) = elim (rtrim p s) [ [] ↦ if p c then [] else c ∷ [] | d ∷ t ↦ c ∷ d ∷ t ]

pub rtrim-le : (p : ℕ → Bool) (s : Bytes) → length (rtrim p s) ≤ length s
unfolding rtrim
rtrim-le p [] = omega arith
rtrim-le p (c ∷ s) = ground (arith, rtrim-le p s)

-- Every byte of a text passes a test.
abbrev pub AllPass : (ℕ → Bool) → Bytes → Type 0
AllPass p [] = Unit
AllPass p (c ∷ s) = (p c ≡ true) × AllPass p s

pub rtrim_pass : (p : ℕ → Bool) (s : Bytes) → AllPass p s → rtrim p s ≡ []
unfolding rtrim
rtrim_pass p [] h = refl
rtrim_pass p (c ∷ s) (hc, hs) = rw (rtrim_pass p s hs, hc)

pub rtrim-append : (p : ℕ → Bool) (s t : Bytes) → AllPass p t → rtrim p (s ++ t) ≡ rtrim p s
unfolding rtrim
rtrim-append p [] t h = rtrim_pass p t h
rtrim-append p (c ∷ s) t h = rw (rtrim-append p s t h)

rtrim_step :
    (p : ℕ → Bool) (d x : ℕ) (s t : Bytes) → rtrim p s ≡ x ∷ t → rtrim p (d ∷ s) ≡ d ∷ x ∷ t
unfolding rtrim
rtrim_step p d x s t h = rw h

pub rtrim_last :
    (p : ℕ → Bool) (s : Bytes) (c : ℕ) → p c ≡ false → rtrim p (s ++ c ∷ []) ≡ s ++ c ∷ []
rtrim_last p [] c h = unfold rtrim in rw h
rtrim_last p (d ∷ []) c h = rtrim_step p d c (c ∷ []) [] (rtrim_last p [] c h)
rtrim_last p (d ∷ e ∷ s) c h = rtrim_step p d e _ _ (rtrim_last p (e ∷ s) c h)

-- The loop leaves the window without the bytes at its end.
pub window-shrink :
    (p : ℕ → Bool) (s : Bytes) (pos n : ℕ)
    → pos + n ≤ length s
    → window s pos (shrink p s pos n) ≡ rtrim p (window s pos n)
unfolding shrink
window-shrink p s pos zero h = rw (window-zero s pos) (unfold rtrim in refl)
window-shrink p s pos (suc n) h = elim (Bool-cases (p (byte_at s (pos + n)))) [
  | inl drops ↦
      rw (drops, window_snoc s pos n (omega arith))
        (window-shrink p s pos n (omega arith)
          ∙ sym (rtrim-append p (window s pos n) _ (drops, tt)))
  | inr keeps ↦ rw (keeps, window_snoc s pos n (omega arith)) (sym (rtrim_last p _ _ keeps))
]
