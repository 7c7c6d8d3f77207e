-- ===== src/Slicing/Bounds.antt =====
-- Where `snap` of src/parallel_stream.h and src/dom_parallel.h stops.
use jsonstreambench.Prelude.{
  ℕ, zero, suc, ◌+◌, ◌-◌, ◌≤◌, ◌<◌, ◌≡◌, ap, ◌⊎◌, inl, inr, arith, Bytes, if◌then◌else◌, leb, ◌==◌,
  length, byte_at, window_cons, window-zero, Bool-cases,
}
use jsonstreambench.Lines.{memchr}
use jsonstreambench.Slicing.{snap}

module _ (data_ : Bytes) (hi d : ℕ) (fits : hi ≤ length data_) where
  pub snap_end : (want : ℕ) → hi ≤ want → snap data_ hi d want ≡ hi
  unfolding snap
  snap_end want h = ground arith

  snap_step_to :
      (want m : ℕ)
      → want + suc m ≡ hi
      → snap data_ hi d want
        ≡ (if byte_at data_ want == d then want + 1 else snap data_ hi d (want + 1))
  unfolding snap memchr
  snap_step_to want zero e =
      let a : hi - want ≡ suc 0 = omega arith in
      rw (a, window_cons data_ want 0 (omega arith), window-zero data_ (suc want)) (ground arith)
  snap_step_to want (suc m) e =
      let a : hi - want ≡ suc (suc m) = omega arith in
      let b : hi - (want + 1) ≡ suc m = omega arith in
      let c : suc want ≡ want + 1 = omega arith in
      rw (a, b, window_cons data_ want (suc m) (omega arith), c) (ground arith)

  -- One byte further: a delimiter ends the search.
  pub snap_step :
      (want : ℕ)
      → want < hi
      → snap data_ hi d want
        ≡ (if byte_at data_ want == d then want + 1 else snap data_ hi d (want + 1))
  snap_step want h = snap_step_to want (hi - want - 1) (omega arith)

  snap_bounds_from :
      (m want : ℕ) → want + m ≡ hi → (want ≤ snap data_ hi d want) × (snap data_ hi d want ≤ hi)
  snap_bounds_from zero want e = omega (arith, snap_end want (omega arith))
  snap_bounds_from (suc m) want e =
      ground (arith, snap_step want (omega arith), snap_bounds_from m (want + 1) (omega arith))

  pub snap_bounds :
      (want : ℕ) → want ≤ hi → (want ≤ snap data_ hi d want) × (snap data_ hi d want ≤ hi)
  snap_bounds want h = snap_bounds_from (hi - want) want (omega arith)

  pub snap-le : (want : ℕ) → snap data_ hi d want ≤ hi
  snap-le want = elim (Bool-cases (leb hi want)) [
    | inl beyond ↦ omega (arith, snap_end want (ground arith))
    | inr inside ↦ (snap_bounds want (ground arith)).1
  ]

  snap_mono_from : (k want : ℕ) → snap data_ hi d want ≤ snap data_ hi d (want + k)
  snap_mono_from zero want = let e : want + 0 ≡ want = omega arith in rw e (omega arith)
  snap_mono_from (suc k) want =
      let e : want + suc k ≡ want + 1 + k = omega arith in
      rw e (elim (Bool-cases (leb hi want)) [
        | inl beyond ↦
            omega (arith, snap_end want (ground arith), snap_end (want + 1 + k) (ground arith))
        | inr inside ↦ ground (
          arith,
          snap_step want (ground arith),
          snap_mono_from k (want + 1),
          snap_bounds (want + 1) (ground arith),
        )
      ])

  -- Later requests are snapped no further back.
  pub snap_mono : (a b : ℕ) → a ≤ b → snap data_ hi d a ≤ snap data_ hi d b
  snap_mono a b h =
      let e : a + (b - a) ≡ b = omega arith in
      omega (arith, snap_mono_from (b - a) a, ap (snap data_ hi d) e)

  -- `p` is the end, or a delimiter stands in front of it.
  abbrev pub IsBoundary : ℕ → Type 0
  IsBoundary p = (p ≡ hi) ⊎ ((q : ℕ) × (p ≡ suc q) × (byte_at data_ q ≡ d))

  snap-IsBoundary_from : (m want : ℕ) → want + m ≡ hi → IsBoundary (snap data_ hi d want)
  snap-IsBoundary_from zero want e = inl (snap_end want (omega arith))
  snap-IsBoundary_from (suc m) want e = elim (Bool-cases (byte_at data_ want == d)) [
    | inl here ↦ inr (want, ground (arith, snap_step want (omega arith)), ground arith)
    | inr away ↦
        let stays : snap data_ hi d want ≡ snap data_ hi d (want + 1) =
          ground (arith, snap_step want (omega arith)) in
        rw stays (snap-IsBoundary_from m (want + 1) (omega arith))
  ]

  pub snap-IsBoundary : (want : ℕ) → IsBoundary (snap data_ hi d want)
  snap-IsBoundary want = elim (Bool-cases (leb hi want)) [
    | inl beyond ↦ inl (snap_end want (ground arith))
    | inr inside ↦ snap-IsBoundary_from (hi - want) want (ground arith)
  ]
