-- ===== src/Tests/Ondemand.antt =====
-- The theorems on the simdjson engine and on the case study of the GitHub archive at small inputs.
use jsonstreambench.Prelude.{
  ◌≤◌, length, codes, true, false, none, ◌*◌, ◌^◌, ℕ, [], ◌∷◌, List, ◌≡◌, ◌≢◌, refl, arith,
}
use jsonstreambench.Extraction.{Extraction, no_extraction}
use jsonstreambench.ParseMany.{whitespace_delimited, newline_delimited}
use jsonstreambench.QueryId.{twitter}
use jsonstreambench.Sliced.Pieces.{Fits}
use jsonstreambench.Simdjson.{Workload, structure, query}
use jsonstreambench.Simdjson.Runs.{merge_values, run_serial, run_bulky_document, run_parallel}
use jsonstreambench.Sliced.{slice_size}
use jsonstreambench.Simdjson.Parallel.{PerLine, run_parallel-run_serial-PerLine}
use jsonstreambench.Simdjson.Single.{
  item_parts, run_bulky_document-parts, run_bulky_document-run_serial,
}
use jsonstreambench.GithubArchive.{lines_serial, lines_parallel}
use jsonstreambench.GithubArchive.Agree.{lines_parallel-lines_serial}
use jsonstreambench.GithubArchive.Checks.{main_rows, measured}
use jsonstreambench.GithubArchive.Checks.Rows.{AllAgree, main_rows-AllAgree}
use jsonstreambench.Tests.Toy.{toy}
use jsonstreambench.Tests.Samples.{two_documents}

abbrev turns : List ℕ
turns = 0 ∷ 1 ∷ 1 ∷ 0 ∷ 0 ∷ 1 ∷ 0 ∷ 1 ∷ 0 ∷ 1 ∷ []

two_threads_Fit : Fits 9 4 2
unfolding jsonstreambench.Sliced.slice_count
two_threads_Fit = record {
  size_pos = omega arith;
  sum = omega arith;
  room = omega arith;
  small = omega arith;
}

toy-PerLine : PerLine toy newline_delimited newline_delimited false two_documents 64 (slice_size 4)
toy-PerLine = record { line_document = λ d. d; whole = refl; slices = λ i some_bytes. refl }

stream_parallel_example :
    run_parallel toy 2 true two_documents 9 twitter query 2 4 false turns
    ≡ (run_serial toy true two_documents 9 twitter query false 64 none 0).0
unfolding jsonstreambench.Pool.all_done jsonstreambench.Pool.run jsonstreambench.Pool.spawn
    jsonstreambench.Pool.spawn_from jsonstreambench.Pool.step jsonstreambench.Pool.advance
    jsonstreambench.Pool.claim jsonstreambench.Pool.settle jsonstreambench.Sliced.slice_count
    jsonstreambench.ParseMany.worker_count jsonstreambench.ParseMany.splittable
    jsonstreambench.ParseMany.parse_workers
stream_parallel_example =
    run_parallel-run_serial-PerLine toy twitter query 2 true false two_documents 9 64 2 4 false
      turns toy-PerLine two_threads_Fit refl

touched : query ≢ structure
touched e = cc

-- The second item is not an object.
run_bulky_document_example :
    run_bulky_document toy two_documents twitter query
    ≡ merge_values (item_parts toy twitter query (toy.elements two_documents)) no_extraction
unfolding jsonstreambench.Simdjson.Runs.bulky_items jsonstreambench.QueryId.bulky_array
    jsonstreambench.QueryId.bytes_eq
run_bulky_document_example =
    run_bulky_document-parts toy twitter query two_documents two_documents two_documents touched
      refl refl

bulky_stream_example :
    run_bulky_document toy (codes "ru\nen") twitter query
    ≡ (run_serial toy true (codes "ru\nen") 5 twitter query false 64 none 0).0
unfolding jsonstreambench.Simdjson.Runs.bulky_items jsonstreambench.Simdjson.Runs.extract
    jsonstreambench.QueryId.bulky_array jsonstreambench.QueryId.bytes_eq
    jsonstreambench.Lines.Split.documents jsonstreambench.Lines.Split.documents_of
    jsonstreambench.Lines.Split.lines jsonstreambench.Lines.Split.extend
    jsonstreambench.Lines.Split.is_nil jsonstreambench.Trim.rtrim
    jsonstreambench.Lines.is_line_space jsonstreambench.Simdjson.dispatch
    jsonstreambench.Simdjson.run_query jsonstreambench.Simdjson.q_twitter
    jsonstreambench.Simdjson.each_root_field jsonstreambench.Simdjson.each_field
bulky_stream_example =
    run_bulky_document-run_serial toy twitter query (codes "ru\nen") (codes "ru\nen") 5 64 true
      false (codes "ru\nen") (codes "ru\nen") (codes "ru" ∷ codes "en" ∷ []) touched refl refl refl
      ((refl, refl, (refl, refl, tt)))

wide_slices_Fit : Fits 9 (256 * 2 ^ 10) 2
unfolding jsonstreambench.Sliced.slice_count
wide_slices_Fit = record {
  size_pos = omega arith;
  sum = omega arith;
  room = omega arith;
  small = omega arith;
}

archive-PerLine :
    PerLine toy whitespace_delimited newline_delimited true two_documents
      (16 * 2 ^ 20)
      (slice_size (256 * 2 ^ 10))
archive-PerLine = record { line_document = λ d. d; whole = refl; slices = λ i some_bytes. refl }

lines_parallel_example :
    lines_parallel toy 2 true two_documents 2 true turns ≡ lines_serial toy two_documents true
unfolding jsonstreambench.Pool.all_done jsonstreambench.Pool.run jsonstreambench.Pool.spawn
    jsonstreambench.Pool.spawn_from jsonstreambench.Pool.step jsonstreambench.Pool.advance
    jsonstreambench.Pool.claim jsonstreambench.Pool.settle jsonstreambench.Sliced.slice_count
    jsonstreambench.ParseMany.worker_count jsonstreambench.ParseMany.splittable
    jsonstreambench.ParseMany.parse_workers
lines_parallel_example =
    lines_parallel-lines_serial toy 2 true true two_documents 2 true turns
      (λ doc key bad. absurd (bad refl)) archive-PerLine wide_slices_Fit refl

abbrev three : Extraction
three = record no_extraction { sum = 5; matches = 3 }

abbrev three_runs : Extraction × List Extraction
three_runs = (three, three ∷ [])

-- Two thread counts; the serial pass disagrees.
main_rows_example :
    let out =
      main_rows
        (three_runs ∷ three_runs ∷ [])
        (no_extraction, [])
        three_runs
        (measured three_runs) in
    (reference : Extraction) × AllAgree reference out.1 × (out.0 ≡ 0 → 2 ≤ length out.1)
main_rows_example =
    main_rows-AllAgree (three_runs ∷ three_runs ∷ []) (no_extraction, []) three_runs
      (measured three_runs)
