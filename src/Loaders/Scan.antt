-- ===== src/Loaders/Scan.antt =====
-- src/loaders.h, `scan_range`: its rounds, and where it may be cut.
use jsonstreambench.Prelude.{
  ◌⊎◌, ℕ, zero, suc, ◌+◌, ◌-◌, ◌≤◌, ◌<◌, ◌≡◌, refl, ap, ◌∙◌, sym, true, false, [], ◌++◌, arith,
  Bytes, length, ltb, leb, byte_at, window, Bool-cases, Option-cases, append_assoc, append-nil, inl,
  inr,
}
use jsonstreambench.Lines.{newline, memchr}
use jsonstreambench.Slicing.{snap}
use jsonstreambench.Slicing.Bounds.{snap_step, snap_bounds}
use jsonstreambench.Loaders.{span_of, scan_loop, scan_range}

-- A round of the scan ends its line where `snap` stops.
pub scan_loop_step :
    (data_ : Bytes) (stop fuel pos : ℕ)
    → pos < stop
    → scan_loop data_ stop (suc fuel) pos
      ≡ span_of data_ pos (snap data_ stop newline pos)
        ++ scan_loop data_ stop fuel (snap data_ stop newline pos)
unfolding scan_loop snap
scan_loop_step data_ stop fuel pos h =
    let inside : leb stop pos ≡ false = ground arith in
    let more : ltb pos stop ≡ true = ground arith in
    elim (Option-cases (memchr (window data_ pos (stop - pos)) newline)) [
      | inl missing ↦ rw (inside, more, missing) refl
      | inr (k, found) ↦ rw (inside, more, found) refl
    ]

pub scan_loop_end :
    (data_ : Bytes) (stop fuel pos : ℕ) → stop ≤ pos → scan_loop data_ stop fuel pos ≡ []
unfolding scan_loop
scan_loop_end data_ stop zero pos h = refl
scan_loop_end data_ stop (suc fuel) pos h =
    let done : ltb pos stop ≡ false = ground arith in rw done refl

module _ (data_ : Bytes) (stop : ℕ) (fits : stop ≤ length data_) where
  pub snap_on :
      (pos : ℕ)
      → pos < stop
      → (pos < snap data_ stop newline pos) × (snap data_ stop newline pos ≤ stop)
  snap_on pos h = ground (
    arith,
    snap_step data_ stop newline fits pos h,
    snap_bounds data_ stop newline fits (pos + 1) (omega arith),
  )

  -- Any fuel above the bytes left gives the same spans.
  scan_loop_fuel :
      (fuel more pos : ℕ)
      → stop - pos < fuel
      → fuel ≤ more
      → scan_loop data_ stop fuel pos ≡ scan_loop data_ stop more pos
  scan_loop_fuel zero more pos h le = absurd (omega arith)
  scan_loop_fuel (suc fuel) zero pos h le = absurd (omega arith)
  scan_loop_fuel (suc fuel) (suc more) pos h le = elim (Bool-cases (ltb pos stop)) [
    | inr done ↦
        scan_loop_end data_ stop (suc fuel) pos (ground arith)
        ∙ sym (scan_loop_end data_ stop (suc more) pos (ground arith))
    | inl inside ↦
        let before : pos < stop = ground arith in
        let (on, within) = snap_on pos before in
        scan_loop_step data_ stop fuel pos before
        ∙ ap (λ t. span_of data_ pos (snap data_ stop newline pos) ++ t)
            (scan_loop_fuel fuel more (snap data_ stop newline pos) (omega arith) (omega arith))
        ∙ sym (scan_loop_step data_ stop more pos before)
  ]

  pub scan_range_step :
      (pos : ℕ)
      → pos < stop
      → scan_range data_ pos stop
        ≡ span_of data_ pos (snap data_ stop newline pos)
          ++ scan_range data_ (snap data_ stop newline pos) stop
  unfolding scan_range
  scan_range_step pos h =
      let (on, within) = snap_on pos h in
      let e : stop - pos + 1 ≡ suc (stop - pos) = omega arith in
      rw e (
        scan_loop_step data_ stop (stop - pos) pos h
        ∙ ap (λ t. span_of data_ pos (snap data_ stop newline pos) ++ t)
            (sym (
              scan_loop_fuel (stop - snap data_ stop newline pos + 1) (stop - pos)
                (snap data_ stop newline pos) (omega arith) (omega arith))))

  pub scan_range_end : (pos : ℕ) → stop ≤ pos → scan_range data_ pos stop ≡ []
  unfolding scan_range
  scan_range_end pos h = scan_loop_end data_ stop (stop - pos + 1) pos h

  -- A search that meets a line feed before `mid` does not see what is behind.
  snap_early :
      (m pos : ℕ)
      → pos + suc m ≤ stop
      → byte_at data_ (pos + m) ≡ newline
      → snap data_ (pos + suc m) newline pos ≡ snap data_ stop newline pos
  snap_early zero pos h feed =
      let e : pos + 0 ≡ pos = omega arith in
      let at : byte_at data_ pos ≡ newline = sym (ap (byte_at data_) e) ∙ feed in
      ground (
        arith,
        snap_step data_ (pos + 1) newline (omega arith) pos (omega arith),
        snap_step data_ stop newline fits pos (omega arith),
      )
  snap_early (suc m) pos h feed =
      let e : pos + suc (suc m) ≡ pos + 1 + suc m = omega arith in
      let f : pos + suc m ≡ pos + 1 + m = omega arith in
      let rest = snap_early m (pos + 1) (omega arith) (sym (ap (byte_at data_) f) ∙ feed) in
      let here = snap_step data_ (pos + 1 + suc m) newline (omega arith) pos (omega arith) in
      let there = snap_step data_ stop newline fits pos (omega arith) in
      rw (e, here, there, rest) refl

module _ (data_ : Bytes) (stop q : ℕ) (fits : stop ≤ length data_) where
  split_ended :
      (fuel pos : ℕ)
      → pos ≤ suc q
      → suc q ≤ stop
      → suc q - pos ≤ fuel
      → byte_at data_ q ≡ newline
      → scan_range data_ pos stop ≡ scan_range data_ pos (suc q) ++ scan_range data_ (suc q) stop
  split_ended zero pos h le b feed =
      let e : pos ≡ suc q = omega arith in
      rw (e, scan_range_end data_ (suc q) (omega arith) (suc q) (omega arith)) refl
  split_ended (suc fuel) pos h le b feed = elim (Bool-cases (ltb pos (suc q))) [
    | inr at ↦
        let e : pos ≡ suc q = ground arith in
        rw (e, scan_range_end data_ (suc q) (omega arith) (suc q) (omega arith)) refl
    | inl inside ↦
        let before : pos < suc q = ground arith in
        let e : pos + suc (q - pos) ≡ suc q = omega arith in
        let f : pos + (q - pos) ≡ q = omega arith in
        let short : suc q ≤ length data_ = omega arith in
        let next = snap data_ stop newline pos in
        let early : snap data_ (suc q) newline pos ≡ next =
          sym (ap (λ k. snap data_ k newline pos) e)
          ∙ snap_early data_ stop fits (q - pos) pos (omega arith) (ap (byte_at data_) f ∙ feed) in
        let (on, within) = snap_on data_ (suc q) short pos before in
        let step : scan_range data_ pos (suc q)
            ≡ span_of data_ pos next ++ scan_range data_ next (suc q) =
          scan_range_step data_ (suc q) short pos before
          ∙ ap (λ k. span_of data_ pos k ++ scan_range data_ k (suc q)) early in
        rw step (
          scan_range_step data_ stop fits pos (omega arith)
          ∙ ap (λ t. span_of data_ pos next ++ t)
              (split_ended fuel next (omega (arith, early)) le (omega (arith, early)) feed)
          ∙ sym (append_assoc (span_of data_ pos next) _ _))
  ]

-- A scan may be cut at a boundary.
pub scan_range_split :
    (data_ : Bytes) (stop pos mid : ℕ) (fits : stop ≤ length data_)
    → pos ≤ mid
    → mid ≤ stop
    → (mid ≡ stop) ⊎ ((q : ℕ) × (mid ≡ suc q) × (byte_at data_ q ≡ newline))
    → scan_range data_ pos stop ≡ scan_range data_ pos mid ++ scan_range data_ mid stop
scan_range_split data_ stop pos mid fits h le (inl e) =
    rw (e, scan_range_end data_ stop fits stop (omega arith))
      (sym (append-nil (scan_range data_ pos stop)))
scan_range_split data_ stop pos mid fits h le (inr (q, e, feed)) =
    rw e (
      split_ended data_ stop q fits (suc q - pos) pos (omega arith) (omega arith) (omega arith)
        feed)
