-- ===== src/GithubArchive/Agree.antt =====
-- src/cujson_baseline/github_archive.cpp: the serial and the parallel pass over the lines.
use jsonstreambench.Prelude.{
  ℕ, suc, ◌+◌, ◌*◌, ◌%◌, ◌^◌, ◌≤◌, ◌<◌, ◌≡◌, ◌≢◌, refl, ap, ◌∙◌, sym, Bool, true, false, List, [],
  ◌∷◌, none, arith, Bytes, ◌==◌, Bool-cases, inl, inr, length, map, u64_mod,
}
use jsonstreambench.Extraction.{Extraction, no_extraction}
use jsonstreambench.Lines.{newline}
use jsonstreambench.Lines.Split.{lines, extend, is_nil, documents_of, documents}
use jsonstreambench.Trim.{rtrim}
use jsonstreambench.Pool.{all_done}
use jsonstreambench.Slicing.{slice_at}
use jsonstreambench.Sliced.{slice_size}
use jsonstreambench.Sliced.Serial.{extraction_eq, empty-IsWord}
use jsonstreambench.Sliced.Pieces.{sum_of, Fits}
use jsonstreambench.ParseMany.{whitespace_delimited, worker_count, parse_workers, parse_many}
use jsonstreambench.ParseMany.Slices.{doc_errors, failed, piece_errors}
use jsonstreambench.ParseMany.Totals.{parse_many-slices}
use jsonstreambench.Ondemand.{Api}
use jsonstreambench.Simdjson.Runs.{corpus_format}
use jsonstreambench.Simdjson.Streams.{merge_result-Adds}
use jsonstreambench.Simdjson.Parallel.{PerLine, slices-sum, slices-text}
use jsonstreambench.GithubArchive.{parallel_options, lines_serial, push_extract, lines_parallel}
use jsonstreambench.GithubArchive.Events.{
  Propagates, all_found, errors_of, serial_events-Adds, serial_events_failed,
}

count_extend :
    (c : ℕ) (ls : List Bytes) → length (documents_of (extend c ls)) ≤ length (documents_of ls) + 1
unfolding extend documents_of is_nil
count_extend c [] = ground arith
count_extend c (l ∷ ls) = ground arith

count_blank : (ls : List Bytes) → length (documents_of ([] ∷ ls)) ≡ length (documents_of ls)
unfolding documents_of rtrim is_nil
count_blank ls = refl

-- A text has no more documents than bytes.
length-documents : (s : Bytes) → length (documents s) ≤ length s
unfolding documents lines
length-documents [] = unfold documents_of in omega arith
length-documents (c ∷ s) = elim (Bool-cases (c == newline)) [
  | inl end ↦ rw end (omega (arith, length-documents s, count_blank (lines s)))
  | inr inside ↦ rw inside (omega (arith, length-documents s, count_extend c (lines s)))
]

module _ (api : Api) where
  failed-le : (docs : List api.Document) → errors_of api docs ≤ length docs
  unfolding failed doc_errors
  failed-le [] = omega arith
  failed-le (doc ∷ docs) = ground (arith, failed-le docs)

  length-map : (f : Bytes → api.Document) (ds : List Bytes) → length (map f ds) ≡ length ds
  length-map f [] = refl
  length-map f (d ∷ ds) = ap suc (length-map f ds)

  module _ (have threaded : Bool) (text : Bytes)
      (lines_ : PerLine api whitespace_delimited
        (corpus_format have)
        threaded
        text
        (16 * 2 ^ 20)
        (slice_size (256 * 2 ^ 10))) where
    abbrev docs : List api.Document
    docs = map lines_.line_document (documents text)

    line_errors : Bytes → ℕ
    line_errors d = doc_errors (api.iterate_many false) (push_extract api) (lines_.line_document d)

    failed-lines :
        (ds : List Bytes) → errors_of api (map lines_.line_document ds) ≡ sum_of line_errors ds
    unfolding failed sum_of line_errors
    failed-lines [] = refl
    failed-lines (d ∷ ds) = ap (λ t. line_errors d + t) (failed-lines ds)

    errors-lines :
        (slice : Bytes)
        → (0 < length slice
            → api.iterate_many false slice (length slice) (corpus_format have)
              ≡ (0, map lines_.line_document (documents slice)))
        → piece_errors (api.iterate_many false) (push_extract api) (corpus_format have) slice
          ≡ sum_of line_errors (documents slice)
    unfolding piece_errors
    errors-lines [] parsed = unfold documents lines documents_of sum_of in refl
    errors-lines (c ∷ slice) parsed =
        let text_left : (length (c ∷ slice) == 0) ≡ false = ground arith in
        rw (parsed (omega arith), text_left) (failed-lines (documents (c ∷ slice)))

    few_errors : length text < u64_mod → errors_of api docs < u64_mod
    few_errors small = omega (
      arith,
      failed-le docs,
      length-map lines_.line_document (documents text),
      length-documents text,
    )

    serial_fine :
        Propagates api
        → errors_of api docs ≡ 0
        → let e = lines_serial api text threaded in
          (e.sum % u64_mod ≡ sum_of (λ t. t.sum) (all_found api docs) % u64_mod)
          × (e.matches % u64_mod ≡ sum_of (λ t. t.matches) (all_found api docs) % u64_mod)
          × (e.sum < u64_mod)
          × (e.matches < u64_mod)
          × (e.trace ≡ none)
          × (e.trace_limit ≡ 0)
    unfolding lines_serial
    serial_fine hands_on none_failed =
        let a = serial_events-Adds api hands_on docs none_failed in
        let w = a.word no_extraction empty-IsWord in
        rw lines_.whole (
          omega (arith, a.sum no_extraction),
          omega (arith, a.matches no_extraction),
          w.sum,
          w.matches,
          a.quiet no_extraction refl,
          a.limit no_extraction,
        )

    serial_failed :
        Propagates api → errors_of api docs ≢ 0 → lines_serial api text threaded ≡ no_extraction
    unfolding lines_serial
    serial_failed hands_on some_failed =
        rw lines_.whole (serial_events_failed api hands_on docs no_extraction some_failed)

-- If errors are handed on by the parser and it finds one event in each line of the text, read as
-- a whole as in each of its slices, then the parallel pass over the lines, at any interleaving in
-- which all threads end, gives the result of the serial pass, also where an event fails and both
-- give nothing, if the sums of the loop fit in 64 bits.
pub lines_parallel-lines_serial :
    (api : Api) (hw : ℕ) (have threaded : Bool) (text : Bytes) (threads : ℕ) (static : Bool)
    (sched : List ℕ)
    → Propagates api
    → PerLine api whitespace_delimited
        (corpus_format have)
        threaded
        text
        (16 * 2 ^ 20)
        (slice_size (256 * 2 ^ 10))
    → Fits
        (length text)
        (slice_size (256 * 2 ^ 10))
        (worker_count hw have (parallel_options have threads static))
    → all_done (
        parse_workers
          (api.iterate_many false)
          (push_extract api)
          hw
          have
          text
          (parallel_options have threads static)
          sched)
      ≡ true
    → lines_parallel api hw have text threads static sched ≡ lines_serial api text threaded
unfolding lines_parallel
lines_parallel-lines_serial api hw have threaded text threads static sched hands_on lines_ fits d =
    let opt = parallel_options have threads static in
    let size = slice_size (256 * 2 ^ 10) in
    let workers = worker_count hw have opt in
    let ds = docs api have threaded text lines_ in
    let out = parse_many (api.iterate_many false) (push_extract api) hw have text opt sched in
    let total = λ (g : Extraction → ℕ).
      (parse_many-slices (api.iterate_many false) (push_extract api) hw have text opt sched g fits
        d).0
      ∙ ap (λ t. t % u64_mod)
          (slices-text api (push_extract api) whitespace_delimited have threaded text (16 * 2 ^ 20)
            size lines_ g workers fits) in
    let few = few_errors api have threaded text lines_ (omega (arith, fits.sum)) in
    let counted : out.errors ≡ errors_of api ds % u64_mod =
      (parse_many-slices (api.iterate_many false) (push_extract api) hw have text opt sched
        (λ e. e.sum) fits d).1
      ∙ ap (λ t. t % u64_mod)
          (slices-sum have text size workers
              (piece_errors (api.iterate_many false) (push_extract api) (corpus_format have))
              (line_errors api have threaded text lines_)
              (λ i.
                errors-lines api have threaded text lines_ (slice_at text newline size i)
                  (lines_.slices i))
              fits
            ∙ sym (failed-lines api have threaded text lines_ (documents text))) in
    elim (Bool-cases (errors_of api ds == 0)) [
      | inl fine ↦
          let z : errors_of api ds ≡ 0 = ground arith in
          let clean : (out.errors == 0) ≡ true = ground arith in
          let par = merge_result-Adds out.shards in
          let w = par.word no_extraction empty-IsWord in
          let (sum, matches, sum_small, matches_small, trace, limit) =
            serial_fine api have threaded text lines_ hands_on z in
          rw clean (
            extraction_eq _ _ w (record { sum = sum_small; matches = matches_small })
              (par.sum no_extraction ∙ omega (arith, total (λ e. e.sum)) ∙ sym sum)
              (par.matches no_extraction ∙ omega (arith, total (λ e. e.matches)) ∙ sym matches)
              (par.quiet no_extraction refl ∙ sym trace) (par.limit no_extraction ∙ sym limit))
      | inr bad ↦
          let some_failed : errors_of api ds ≢ 0 = λ e. ground arith in
          let noisy : (out.errors == 0) ≡ false = ground arith in
          rw noisy (sym (serial_failed api have threaded text lines_ hands_on some_failed))
    ]
