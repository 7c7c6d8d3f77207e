-- ===== src/Loaders/Chunks.antt =====
-- src/loaders.h, `chunk_bounds`, and the scans of the chunks.
use jsonstreambench.Prelude.{
  ◌⊎◌, ℕ, zero, suc, ◌-◌, ◌*◌, ◌/◌, ◌≤◌, ◌≡◌, refl, ap, ◌∙◌, sym, List, [], ◌∷◌, ◌++◌, arith, Bytes,
  length, if◌then◌else◌, ltb, leb, byte_at, window, Bool-cases, inl, inr,
}
use jsonstreambench.Lines.{newline, memchr}
use jsonstreambench.Slicing.{snap}
use jsonstreambench.Slicing.Bounds.{snap-le, snap-IsBoundary}
use jsonstreambench.Loaders.{
  Span, scan_range, bound_at, behind_newline, bounds_from, raise, chunk_bounds, scan_chunks,
}
use jsonstreambench.Loaders.Scan.{scan_range_end, scan_range_split}

-- Bounds that a scan of `[b, stop)` may be cut at, in order, the last of them being `stop`.
IsCut : Bytes → ℕ → ℕ → List ℕ → Type 0
IsCut data_ stop b [] = b ≡ stop
IsCut data_ stop b (c ∷ bounds) =
    (b ≤ c)
    × (c ≤ stop)
    × ((c ≡ stop) ⊎ ((q : ℕ) × (c ≡ suc q) × (byte_at data_ q ≡ newline)))
    × IsCut data_ stop c bounds

unfoldable pub flatten : List (List Span) → List Span
flatten [] = []
flatten (spans ∷ chunks) = spans ++ flatten chunks

scan_chunks-flatten :
    (data_ : Bytes) (stop b : ℕ) (bounds : List ℕ)
    → stop ≤ length data_
    → IsCut data_ stop b bounds
    → flatten (scan_chunks data_ (b ∷ bounds)) ≡ scan_range data_ b stop
unfolding IsCut flatten scan_chunks
scan_chunks-flatten data_ stop b [] fits e =
    rw e (sym (scan_range_end data_ stop fits stop (omega arith)))
scan_chunks-flatten data_ stop b (c ∷ bounds) fits (le, top, cut, rest) =
    ap (λ t. scan_range data_ b c ++ t) (scan_chunks-flatten data_ stop c bounds fits rest)
    ∙ sym (scan_range_split data_ stop b c fits le top cut)

behind_newline_end : (data_ : Bytes) (size : ℕ) → behind_newline data_ size size ≡ size
unfolding behind_newline
behind_newline_end data_ size =
    let z : size - size ≡ 0 = omega arith in rw (z, behind_newline) (unfold window memchr in refl)

bound_at-snap :
    (data_ : Bytes) (size threads t : ℕ)
    → size ≤ length data_
    → bound_at data_ size threads t ≡ snap data_ size newline (size / threads * t)
unfolding bound_at
bound_at-snap data_ size threads t fits = elim (Bool-cases (leb size (size / threads * t))) [
  | inr inside ↦ rw inside (unfold behind_newline snap in rw inside refl)
  | inl beyond ↦ rw (beyond, behind_newline_end data_ size) (unfold snap in rw beyond refl)
]

module _ (data_ : Bytes) (size threads : ℕ) (fits : size ≤ length data_) where
  IsCuttable : ℕ → Type 0
  IsCuttable b = (b ≡ size) ⊎ ((q : ℕ) × (b ≡ suc q) × (byte_at data_ q ≡ newline))

  raised :
      (b c : ℕ)
      → b ≤ size
      → c ≤ size
      → (b ≡ 0) ⊎ IsCuttable b
      → IsCuttable c
      → let here = if ltb c b then b else c in (b ≤ here) × (here ≤ size) × IsCuttable here
  raised b c le top cut here = elim (Bool-cases (ltb c b)) [
    | inr stays ↦ rw stays (ground arith, top, here)
    | inl lifts ↦
        rw lifts (omega arith, le, elim cut [ inl zero_ ↦ absurd (ground arith) | inr cuts ↦ cuts ])
  ]

  raise-IsCut :
      (t n b : ℕ)
      → b ≤ size
      → (b ≡ 0) ⊎ IsCuttable b
      → IsCut data_ size b (raise b (bounds_from data_ size threads t n))
  unfolding raise bounds_from IsCut IsCuttable
  raise-IsCut t zero b le cut =
      let (after, within, cuts) = raised b size le (omega arith) cut (inl refl) in
      (after, within, cuts, ground arith)
  raise-IsCut t (suc n) b le cut =
      let at = bound_at-snap data_ size threads t fits in
      let want = size / threads * t in
      let top : bound_at data_ size threads t ≤ size =
        omega (arith, at, snap-le data_ size newline fits want) in
      let cuts : IsCuttable (bound_at data_ size threads t) =
        rw at (snap-IsBoundary data_ size newline fits want) in
      let (after, within, here) = raised b (bound_at data_ size threads t) le top cut cuts in
      (after, within, here, raise-IsCut (suc t) n _ within (inr here))

-- The scans of the chunks, one behind the other, are the scan of the whole input.
pub scan_chunks-scan_range :
    (data_ : Bytes) (size threads : ℕ)
    → size ≤ length data_
    → flatten (scan_chunks data_ (chunk_bounds data_ size threads)) ≡ scan_range data_ 0 size
unfolding chunk_bounds
scan_chunks-scan_range data_ size threads fits =
    scan_chunks-flatten data_ size 0 _ fits
      (raise-IsCut data_ size threads fits 1 (threads - 1) 0 (omega arith) (inl refl))
