-- ===== src/DomEngine/Corpus.antt =====
-- src/dom_engine.cpp, `scan_corpus`, and src/main.cpp, `derive_slice_kib`.
use Prim.Native.Nat.{max}
use jsonstreambench.Prelude.{
  ◌⊎◌, ℕ, ◌+◌, ◌*◌, ◌%◌, ◌≤◌, ◌<◌, ◌≡◌, refl, ◌∙◌, sym, List, [], ◌∷◌, arith, Bytes, length, take,
  if◌then◌else◌, ltb, leb, u64_mod, visit, length-take, Bool-cases, inl, inr,
}
use jsonstreambench.Trim.{rtrim-le}
use jsonstreambench.Lines.{is_line_space}
use jsonstreambench.Lines.Split.{documents, documents_of, lines, total_length, total_length-lines}
use native.Mathlib.Nat.{zero-add}
use jsonstreambench.Lines.Loop.{for_each_line-documents}
use jsonstreambench.DomEngine.{
  CorpusStats, add_above, add_line, scan_corpus, derive_from, derive_slice_kib, thresholds,
}

-- The bytes of the documents that are longer than `t`.
unfoldable pub above : ℕ → List Bytes → ℕ
above t [] = 0
above t (d ∷ ds) = (if ltb t (length d) then length d else 0) + above t ds

unfoldable pub longest_of : List Bytes → ℕ
longest_of [] = 0
longest_of (d ∷ ds) = max (length d) (longest_of ds)

-- What the counters hold behind some documents, for each threshold.
counted : List ℕ → List ℕ → List Bytes → List ℕ
counted (t ∷ ts) (c ∷ cs) ds = (c + above t ds) ∷ counted ts cs ds
counted _ cs ds = cs

-- No counter wraps.
Bounded : List ℕ → List ℕ → List Bytes → Type 0
Bounded (t ∷ ts) (c ∷ cs) ds = (c + above t ds < u64_mod) × Bounded ts cs ds
Bounded _ cs ds = Unit

counted-add_above :
    (ts cs : List ℕ) (d : Bytes) (ds : List Bytes)
    → Bounded ts cs (d ∷ ds)
    → (counted ts (add_above (length d) ts cs) ds ≡ counted ts cs (d ∷ ds))
      × Bounded ts (add_above (length d) ts cs) ds
unfolding counted Bounded add_above above
counted-add_above [] cs d ds h = (refl, tt)
counted-add_above (t ∷ ts) [] d ds h = (refl, tt)
counted-add_above (t ∷ ts) (c ∷ cs) d ds (h, hs) =
    let (same, bounded) = counted-add_above ts cs d ds hs in
    elim (Bool-cases (ltb t (length d))) [
      | inl long ↦
          let e : (c + length d) % u64_mod + above t ds ≡ c + (length d + above t ds) =
            ground arith in
          rw (long, e, same) (refl, (ground arith, bounded))
      | inr short ↦
          let e : c + above t ds ≡ c + (0 + above t ds) = omega arith in
          rw (short, e, same) (refl, (ground arith, bounded))
    ]

counted-nil : (ts cs : List ℕ) → counted ts cs [] ≡ cs
unfolding counted above
counted-nil [] cs = refl
counted-nil (t ∷ ts) [] = refl
counted-nil (t ∷ ts) (c ∷ cs) = let e : c + 0 ≡ c = omega arith in rw (e, counted-nil ts cs)

-- The statistics behind some documents.
stats_from :
    (ds : List Bytes) (s : CorpusStats)
    → Bounded thresholds s.bytes_above ds
    → ((visit add_line ds s).bytes_above ≡ counted thresholds s.bytes_above ds)
      × ((visit add_line ds s).longest ≡ max s.longest (longest_of ds))
unfolding visit add_line longest_of
stats_from [] s h = (sym (counted-nil thresholds s.bytes_above), omega arith)
stats_from (d ∷ ds) s h =
    let (same, bounded) = counted-add_above thresholds s.bytes_above d ds h in
    let (sums, most) = stats_from ds (add_line d s) bounded in (sums ∙ same, most ∙ ground arith)

above-le : (t : ℕ) (ds : List Bytes) → above t ds ≤ total_length ds
unfolding above total_length
above-le t [] = omega arith
above-le t (d ∷ ds) = ground (arith, above-le t ds)

total_length-documents_of : (ls : List Bytes) → total_length (documents_of ls) ≤ total_length ls
unfolding total_length documents_of
total_length-documents_of [] = omega arith
total_length-documents_of (l ∷ ls) =
    ground (arith, total_length-documents_of ls, rtrim-le is_line_space l)

total_length-documents : (s : Bytes) → total_length (documents s) ≤ length s
unfolding documents
total_length-documents s = omega (arith, total_length-documents_of (lines s), total_length-lines s)

counted_zero :
    (ds : List Bytes)
    → counted thresholds (0 ∷ 0 ∷ 0 ∷ 0 ∷ 0 ∷ []) ds
      ≡ above (64 * 1024) ds
        ∷ above (128 * 1024) ds
        ∷ above (256 * 1024) ds
        ∷ above (512 * 1024) ds
        ∷ above (1024 * 1024) ds
        ∷ []
unfolding counted
counted_zero ds = simp zero-add

stats_eq :
    (s : CorpusStats) (l : ℕ) (cs : List ℕ)
    → s.bytes_above ≡ cs
    → s.longest ≡ l
    → s ≡ record { longest = l; bytes_above = cs }
stats_eq s l cs p q = λ i. record { longest = q i; bytes_above = p i }

-- The corpus statistics of an input are the length of its longest document and, for each
-- threshold, the bytes of the documents above it.
pub scan_corpus-documents :
    (data_ : Bytes) (size : ℕ)
    → size ≤ length data_
    → size < u64_mod
    → scan_corpus data_ size ≡ (
        let ds = documents (take size data_) in
        record {
          longest = longest_of ds;
          bytes_above =
              above (64 * 1024) ds
              ∷ above (128 * 1024) ds
              ∷ above (256 * 1024) ds
              ∷ above (512 * 1024) ds
              ∷ above (1024 * 1024) ds
              ∷ [];
        })
unfolding scan_corpus Bounded
scan_corpus-documents data_ size within small =
    let ds = documents (take size data_) in
    let start : CorpusStats = record { longest = 0; bytes_above = 0 ∷ 0 ∷ 0 ∷ 0 ∷ 0 ∷ [] } in
    let fits = λ (t : ℕ).
      let le = above-le t ds in
      let doc = total_length-documents (take size data_) in
      let cut = length-take size data_ in let r : 0 + above t ds < u64_mod = omega arith in r in
    let (sums, most) = stats_from ds start (
      fits (64 * 1024),
      (fits (128 * 1024), (fits (256 * 1024), (fits (512 * 1024), (fits (1024 * 1024), tt)))),
    ) in
    for_each_line-documents data_ size add_line start within
    ∙ stats_eq _ _ _ (sums ∙ counted_zero ds) (most ∙ omega arith)

-- A slice size that five coverages lead to, `a kib` being the bytes of documents above `kib`.
pub IsChosen : (ℕ → ℕ) → ℕ → ℕ → Type 0
IsChosen a size kib =
    ((kib ≡ 64) ⊎ ((kib ≡ 128) ⊎ ((kib ≡ 256) ⊎ ((kib ≡ 512) ⊎ (kib ≡ 1024)))))
    × ((kib ≡ 1024) ⊎ (a kib * 100 ≤ size))
    × ((64 < kib → size < a 64 * 100)
        × ((128 < kib → size < a 128 * 100)
            × ((256 < kib → size < a 256 * 100) × (512 < kib → size < a 512 * 100))))

-- One round of the loop.
derive_step :
    (a size c : ℕ) (above_rest cs : List ℕ)
    → a * 100 < u64_mod
    → ((a * 100 ≤ size) × (derive_from (a ∷ above_rest) (c ∷ cs) size ≡ c))
      ⊎ ((size < a * 100)
          × (derive_from (a ∷ above_rest) (c ∷ cs) size ≡ derive_from above_rest cs size))
unfolding derive_from
derive_step a size c above_rest cs small = elim (Bool-cases (leb (a * 100 % u64_mod) size)) [
  | inl fits ↦ inl (ground arith, rw fits refl)
  | inr not ↦ inr (ground arith, rw not refl)
]

derive-IsChosen :
    (a : ℕ → ℕ) (size : ℕ)
    → ((t : ℕ) → a t * 100 < u64_mod)
    → IsChosen a size (
        derive_from
          (a 64 ∷ a 128 ∷ a 256 ∷ a 512 ∷ a 1024 ∷ [])
          (64 ∷ 128 ∷ 256 ∷ 512 ∷ 1024 ∷ [])
          size)
unfolding IsChosen derive_from
derive-IsChosen a size small =
    elim (derive_step (a 64) size 64 (a 128 ∷ a 256 ∷ a 512 ∷ a 1024 ∷ [])
      (128 ∷ 256 ∷ 512 ∷ 1024 ∷ []) (small 64)) [
        | inl (fits, e) ↦ rw e (inl refl, ground arith, ground arith)
        | inr (over_64, e) ↦
            elim (derive_step (a 128) size 128 (a 256 ∷ a 512 ∷ a 1024 ∷ []) (256 ∷ 512 ∷ 1024 ∷ [])
              (small 128)) [
                | inl (fits, f) ↦ rw (e, f) (inr (inl refl), ground arith, ground arith)
                | inr (over_128, f) ↦
                    elim (derive_step (a 256) size 256 (a 512 ∷ a 1024 ∷ []) (512 ∷ 1024 ∷ [])
                      (small 256)) [
                        | inl (fits, g) ↦
                            rw (e, f, g) (inr (inr (inl refl)), ground arith, ground arith)
                        | inr (over_256, g) ↦
                            elim (derive_step (a 512) size 512 (a 1024 ∷ []) (1024 ∷ [])
                              (small 512)) [
                                | inl (fits, h) ↦
                                    rw (e, f, g, h)
                                      (inr (inr (inr (inl refl))), ground arith, ground arith)
                                | inr (over_512, h) ↦
                                    elim (derive_step (a 1024) size 1024 [] [] (small 1024)) [
                                      | inl (fits, k) ↦
                                          rw (e, f, g, h, k)
                                            (inr (inr (inr (inr refl))), ground arith, ground arith)
                                      | inr (over_1024, k) ↦
                                          rw (e, f, g, h, k)
                                            (inr (inr (inr (inr refl))), ground arith, ground arith)
                                    ]
                              ]
                      ]
              ]
      ]

-- The slice size that is derived for an input whose size times a hundred does not wrap is a
-- candidate; it is the largest, or longer documents hold at most a hundredth of the input; and
-- for every smaller candidate they hold more.
pub derive_slice_kib-IsChosen :
    (data_ : Bytes) (size : ℕ)
    → size ≤ length data_
    → size * 100 < u64_mod
    → IsChosen
        (λ kib. above (kib * 1024) (documents (take size data_)))
        size
        (derive_slice_kib (scan_corpus data_ size) size)
unfolding derive_slice_kib
derive_slice_kib-IsChosen data_ size within small =
    let ds = documents (take size data_) in
    let fits = λ (kib : ℕ).
      let le = above-le (kib * 1024) ds in
      let doc = total_length-documents (take size data_) in
      let cut = length-take size data_ in
      let r : above (kib * 1024) ds * 100 < u64_mod = omega arith in r in
    rw (scan_corpus-documents data_ size within (omega arith))
      (derive-IsChosen (λ kib. above (kib * 1024) ds) size fits)
