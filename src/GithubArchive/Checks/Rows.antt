-- ===== src/GithubArchive/Checks/Rows.antt =====
-- src/cujson_baseline/github_archive.cpp: the results that one run of the program prints.
use mathlib.Core.Path.{subst}
use jsonstreambench.Prelude.{
  ◌≡◌, ◌≢◌, refl, true, false, ◌||◌, not, List, [], ◌∷◌, ◌++◌, ◌==◌, arith, Bool-cases, inl, inr,
  sym, ap, length, length-append, suc, ◌≤◌,
}
use jsonstreambench.Extraction.{Extraction, no_extraction}
use jsonstreambench.GithubArchive.Checks.{
  differs, measure_runs, measure, parallel_rows, serial_row, DocumentRuns, no_document, not_loaded,
  not_allocated, measured, document_row, main_rows,
}

-- Every one has the count and the hash of the reference.
abbrev pub AllAgree : Extraction → List Extraction → Type 0
AllAgree r [] = Unit
AllAgree r (e ∷ es) = ((e.matches ≡ r.matches) × (e.sum ≡ r.sum)) × AllAgree r es

AllAgree-append :
    (r : Extraction) (es fs : List Extraction)
    → AllAgree r es
    → AllAgree r fs
    → AllAgree r (es ++ fs)
AllAgree-append r [] fs a b = b
AllAgree-append r (e ∷ es) fs (h, a) b = (h, AllAgree-append r es fs a b)

measure_runs-AllAgree :
    (es : List Extraction) (t : Extraction)
    → (measure_runs es t).0 ≡ true
    → ((measure_runs es t).1 ≡ t) × AllAgree t es
unfolding measure_runs
measure_runs-AllAgree [] t h = (refl, tt)
measure_runs-AllAgree (e ∷ es) t h =
    let none_left : (e.matches == 0) ≡ false = ground arith in
    let same : differs e t ≡ false = ground arith in
    let (kept, rest) = measure_runs-AllAgree es t (ground arith) in
    let agrees : (e.matches ≡ t.matches) × (e.sum ≡ t.sum) = (ground arith, ground arith) in
    rw (none_left, same) (kept, (agrees, rest))

-- A measurement that goes through returns what every run returns, and matches.
pub measure-AllAgree :
    (e : Extraction) (es : List Extraction)
    → (measure (e, es)).0 ≡ true
    → ((measure (e, es)).1 ≡ e) × (e.matches ≢ 0) × AllAgree e es
unfolding measure
measure-AllAgree e es h =
    let none_left : (e.matches == 0) ≡ false = ground arith in
    let (kept, rest) = measure_runs-AllAgree es e (ground arith) in
    rw none_left (kept, (λ z. ground arith), rest)

-- Behind a first result, the reference stays and the rows agree with it.
parallel_rows-AllAgree :
    (parallel : List (Extraction × List Extraction)) (reference : Extraction)
    → reference.matches ≢ 0
    → let r = parallel_rows parallel reference in
      (r.1 ≡ reference) × AllAgree reference r.2 × (r.0 ≡ true → length r.2 ≡ length parallel)
unfolding parallel_rows
parallel_rows-AllAgree [] reference some_ref = (refl, tt, λ h. refl)
parallel_rows-AllAgree ((e, es) ∷ rest) reference some_ref =
    let has : (reference.matches == 0) ≡ false = ground arith in
    let m = measure (e, es) in
    let (kept, agree, counted) = parallel_rows-AllAgree rest reference some_ref in
    rw has (elim (Bool-cases (not m.0 || differs m.1 reference)) [
      | inl bad ↦ rw bad (refl, tt, λ h. absurd (ground arith))
      | inr good ↦
          let agrees : (m.1.matches ≡ reference.matches) × (m.1.sum ≡ reference.sum) =
            (ground arith, ground arith) in
          rw good (kept, (agrees, agree), λ h. ap suc (counted h))
    ])

-- The first measurement gives the reference.
first_row :
    (e : Extraction) (es : List Extraction) (rest : List (Extraction × List Extraction))
    → (measure (e, es)).0 ≡ true
    → parallel_rows ((e, es) ∷ rest) no_extraction
      ≡ (let r = parallel_rows rest e in (r.0, r.1, e ∷ r.2))
unfolding parallel_rows
first_row e es rest fine =
    rw fine
      (ap (λ t. let r = parallel_rows rest t in (r.0, r.1, t ∷ r.2)) (measure-AllAgree e es fine).0)

first_failed :
    (e : Extraction) (es : List Extraction) (rest : List (Extraction × List Extraction))
    → (measure (e, es)).0 ≡ false
    → parallel_rows ((e, es) ∷ rest) no_extraction ≡ (false, no_extraction, [])
unfolding parallel_rows
first_failed e es rest failed = rw failed refl

parallel_rows_first :
    (parallel : List (Extraction × List Extraction))
    → let r = parallel_rows parallel no_extraction in
      AllAgree r.1 r.2 × (r.0 ≡ true → length r.2 ≡ length parallel)
parallel_rows_first [] = unfold parallel_rows in (tt, λ h. refl)
parallel_rows_first ((e, es) ∷ rest) = elim (Bool-cases (measure (e, es)).0) [
  | inr failed ↦ rw (first_failed e es rest failed) (tt, λ h. absurd (ground arith))
  | inl fine ↦
      let (first, some_left, same) = measure-AllAgree e es fine in
      let (kept, agree, counted) = parallel_rows-AllAgree rest e some_left in
      let agree' : AllAgree (parallel_rows rest e).1 (parallel_rows rest e).2 =
        subst (λ t. AllAgree t (parallel_rows rest e).2) (sym kept) agree in
      rw (first_row e es rest fine) (
        ((ap (λ t. t.matches) (sym kept), ap (λ t. t.sum) (sym kept)), agree'),
        λ h. ap suc (counted h),
      )
]

serial_row-AllAgree :
    (runs : Extraction × List Extraction) (r : Extraction) → AllAgree r (serial_row runs r)
unfolding serial_row
serial_row-AllAgree runs r =
    let m = measure runs in
    elim (Bool-cases (not m.0 || differs m.1 r)) [
      | inl bad ↦ rw bad tt
      | inr good ↦ rw good ((ground arith, ground arith), tt)
    ]

document_row-AllAgree : (d : DocumentRuns) (r : Extraction) → AllAgree r (document_row d r).1
unfolding document_row
document_row-AllAgree no_document r = tt
document_row-AllAgree not_loaded r = tt
document_row-AllAgree not_allocated r = tt
document_row-AllAgree (measured runs) r =
    let m = measure runs in
    elim (Bool-cases (not m.0 || differs m.1 r)) [
      | inl bad ↦ rw bad tt
      | inr good ↦ rw good ((ground arith, ground arith), tt)
    ]

-- All results that one run of the program prints have one count and one hash, and if the program
-- succeeds then there is a result for every number of threads at least.
pub main_rows-AllAgree :
    (parallel : List (Extraction × List Extraction))
    (serial threaded : Extraction × List Extraction) (document : DocumentRuns)
    → (reference : Extraction) × AllAgree reference (main_rows parallel serial threaded document).1
      × ((main_rows parallel serial threaded document).0 ≡ 0
          → length parallel ≤ length (main_rows parallel serial threaded document).1)
unfolding main_rows
main_rows-AllAgree parallel serial threaded document =
    let r = parallel_rows parallel no_extraction in
    let (agree, counted) = parallel_rows_first parallel in
    let reference = r.1 in
    let s = serial_row serial reference in
    let t = serial_row threaded reference in
    let d = (document_row document reference).1 in
    elim (Bool-cases r.0) [
      | inr failed ↦ rw failed (reference, agree, λ h. absurd (ground arith))
      | inl fine ↦ rw fine (
        reference,
        AllAgree-append reference r.2 (s ++ (t ++ d)) agree (
            AllAgree-append reference s (t ++ d) (serial_row-AllAgree serial reference) (
              AllAgree-append reference t d (serial_row-AllAgree threaded reference)
                (document_row-AllAgree document reference))),
        λ h. omega (arith, length-append r.2 (s ++ (t ++ d)), counted fine),
      )
    ]
