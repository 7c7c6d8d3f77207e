-- ===== src/GithubArchive/Checks.antt =====
-- src/cujson_baseline/github_archive.cpp: the comparison of the runs, and the exit status.
pub mod Rows
use jsonstreambench.Prelude.{
  ℕ, Bool, true, false, ◌&&◌, ◌||◌, not, List, [], ◌∷◌, ◌++◌, if◌then◌else◌, ◌==◌,
}
use jsonstreambench.Extraction.{Extraction, no_extraction}

-- `a.matches != b.matches || a.sum != b.sum`.
abbrev pub differs : Extraction → Extraction → Bool
differs a b = not (a.matches == b.matches) || not (a.sum == b.sum)

-- The timed runs behind the untimed one.
unfoldable pub measure_runs : List Extraction → Extraction → Bool × Extraction
measure_runs [] result = (true, result)
measure_runs (e ∷ es) result =
    let rest = measure_runs es result in
    if e.matches == 0 then (false, e) else if differs e result then (false, result) else rest

-- What the runs return is given: the untimed run and the timed ones.
unfoldable pub measure : Extraction × List Extraction → Bool × Extraction
unfolding measure_runs
measure (e, es) = if e.matches == 0 then (false, e) else measure_runs es e

-- The loop over the thread counts: whether it goes through, the reference and the rows.
unfoldable pub parallel_rows :
    List (Extraction × List Extraction) → Extraction → Bool × Extraction × List Extraction
parallel_rows [] reference = (true, reference, [])
parallel_rows (runs ∷ rest) reference =
    let (okay, p) = measure runs in
    let (fine, last, rows) = parallel_rows rest (if reference.matches == 0 then p else reference) in
    if not okay || (not (reference.matches == 0) && differs p reference)
    then (false, reference, [])
    else (fine, last, p ∷ rows)

-- One mode of `lines_serial`: a disagreement is printed and no more.
unfoldable pub serial_row : Extraction × List Extraction → Extraction → List Extraction
serial_row runs reference =
    let (okay, t) = measure runs in if not okay || differs t reference then [] else t ∷ []

-- No `--document`, a file that cannot be loaded, a parser without memory, and the runs.
pub data DocumentRuns : Type 0 where
  no_document not_loaded not_allocated : DocumentRuns
  measured : Extraction × List Extraction → DocumentRuns

unfoldable pub document_row : DocumentRuns → Extraction → ℕ × List Extraction
document_row no_document reference = (0, [])
document_row not_loaded reference = (1, [])
document_row not_allocated reference = (1, [])
document_row (measured runs) reference =
    let (okay, d) = measure runs in if not okay || differs d reference then (1, []) else (0, d ∷ [])

-- The exit status of `main` behind the loading of the lines, and the results that it prints.
unfoldable pub main_rows :
    List (Extraction × List Extraction)
    → Extraction × List Extraction
    → Extraction × List Extraction
    → DocumentRuns
    → ℕ × List Extraction
main_rows parallel serial threaded document =
    let (fine, reference, rows) = parallel_rows parallel no_extraction in
    let (status, last) = document_row document reference in
    if fine
    then (status, rows ++ (serial_row serial reference ++ (serial_row threaded reference ++ last)))
    else (1, rows)
