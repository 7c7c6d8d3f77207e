-- ===== src/Simdjson/Parallel.antt =====
-- src/simdjson_engine.cpp: `run_parallel` beside `run_serial`.
use jsonstreambench.Prelude.{
  ℕ, ◌+◌, ◌%◌, ◌<◌, ◌≡◌, refl, ap, ◌∙◌, sym, Bool, true, false, List, [], ◌∷◌, none, arith, Bytes,
  ◌==◌, length, take, take_all, map, u64_mod,
}
use jsonstreambench.Extraction.{Extraction, no_extraction}
use jsonstreambench.QueryId.{QueryId}
use jsonstreambench.Lines.{newline}
use jsonstreambench.Lines.Split.{lines, documents_of, documents}
use jsonstreambench.Slicing.{slice_at}
use jsonstreambench.Slicing.Slices.{slice_at-piece}
use jsonstreambench.Pool.{all_done}
use jsonstreambench.Pool.Total.{range}
use jsonstreambench.Sliced.{slice_size, slice_count}
use jsonstreambench.Sliced.Serial.{extraction_eq, empty-IsWord}
use jsonstreambench.Sliced.Pieces.{sum_of, sum_of-append, Fits, claim_outside}
use jsonstreambench.Sliced.Ranges.{range_ext, sum-pieces}
use jsonstreambench.ParseMany.{StreamFormat, delimiter_for, worker_count, parse_workers, parse_many}
use jsonstreambench.ParseMany.Slices.{doc_values, extracted, piece_values}
use jsonstreambench.ParseMany.Totals.{parse_many-slices}
use jsonstreambench.Ondemand.{Api}
use jsonstreambench.Simdjson.{Workload}
use jsonstreambench.Simdjson.Runs.{
  corpus_format, merge_values, run_serial_format, run_serial, extract, parallel_options,
  run_parallel,
}
use jsonstreambench.Simdjson.Streams.{
  merge_values-Adds, merge_result-Adds, run_serial_format-extracted,
}

-- What the stream parser does on a corpus of JSON lines, with one valid document on each line that
-- is not blank: the documents of the text are those of its lines, and so are the documents of each
-- slice that is not empty, cut where `slice_at` cuts the text into slices of `size` bytes. Nothing
-- is asked of other texts.
pub record PerLine (api : Api) (whole_format format : StreamFormat) (threaded : Bool) (text : Bytes)
    (batch_bytes size : ℕ) : Type 0 where
  pub line_document : Bytes → api.Document
  pub whole :
      api.iterate_many threaded text batch_bytes whole_format
      ≡ (0, map line_document (documents text))
  pub slices :
      (i : ℕ)
      → let slice = slice_at text newline size i in
        0 < length slice
        → api.iterate_many false slice (length slice) format
          ≡ (0, map line_document (documents slice))

corpus_delimiter : (have : Bool) → delimiter_for (corpus_format have) ≡ newline
unfolding delimiter_for
corpus_delimiter true = refl
corpus_delimiter false = refl

-- A number that is added up over the documents of a slice, slice by slice.
pub slices-sum :
    (have : Bool) (text : Bytes) (size threads : ℕ) (of_slice of_line : Bytes → ℕ)
    → ((i : ℕ)
        → let slice = slice_at text newline size i in
          of_slice slice ≡ sum_of of_line (documents slice))
    → Fits (length text) size threads
    → range
        (λ i. of_slice (slice_at text (delimiter_for (corpus_format have)) size i))
        0
        (slice_count (length text) size)
      ≡ sum_of of_line (documents text)
slices-sum have text size threads of_slice of_line adds_up fits =
    let n = slice_count (length text) size in
    let whole = take_all (length text) text (omega arith) in
    range_ext _ _ 0 n (λ k _ _.
      ap (λ t. of_slice (slice_at text t size k)) (corpus_delimiter have)
      ∙ adds_up k
      ∙ ap (λ t. sum_of of_line (documents t))
          (slice_at-piece text newline size fits.size_pos (omega (arith, fits.sum)) k))
    ∙ sym (
        sum-pieces text (length text) size (omega arith) fits.size_pos of_line n
          (claim_outside (length text) size threads fits n (omega arith)))
    ∙ ap (λ t. sum_of of_line (documents t)) whole

-- What `f`, run on every document, gives line by line.
module _ (api : Api) (f : api.Document → ℕ × Extraction) (whole_format : StreamFormat)
    (have threaded : Bool) (text : Bytes) (batch_bytes size : ℕ)
    (lines_ : PerLine api whole_format (corpus_format have) threaded text batch_bytes size)
    (g : Extraction → ℕ) where
  abbrev all_found : List api.Document → List Extraction
  all_found = extracted (api.iterate_many false) f

  -- The number of one line.
  abbrev of_line : Bytes → ℕ
  of_line d = sum_of g (doc_values (api.iterate_many false) f (lines_.line_document d))

  extracted-lines :
      (ds : List Bytes) → sum_of g (all_found (map lines_.line_document ds)) ≡ sum_of of_line ds
  unfolding extracted sum_of
  extracted-lines [] = refl
  extracted-lines (d ∷ ds) =
      let here = doc_values (api.iterate_many false) f (lines_.line_document d) in
      sum_of-append g here (all_found (map lines_.line_document ds))
      ∙ ap (λ t. sum_of g here + t) (extracted-lines ds)

  values-lines :
      (slice : Bytes)
      → (0 < length slice
          → api.iterate_many false slice (length slice) (corpus_format have)
            ≡ (0, map lines_.line_document (documents slice)))
      → sum_of g (piece_values (api.iterate_many false) f (corpus_format have) slice)
        ≡ sum_of of_line (documents slice)
  unfolding piece_values
  values-lines [] parsed = unfold documents lines documents_of sum_of in refl
  values-lines (c ∷ slice) parsed =
      let text_left : (length (c ∷ slice) == 0) ≡ false = ground arith in
      rw (parsed (omega arith), text_left) (extracted-lines (documents (c ∷ slice)))

  -- The slices hold what the text holds.
  pub slices-text :
      (threads : ℕ)
      → Fits (length text) size threads
      → range
          (λ i. sum_of g (
            piece_values
              (api.iterate_many false)
              f
              (corpus_format have)
              (slice_at text (delimiter_for (corpus_format have)) size i)))
          0
          (slice_count (length text) size)
        ≡ sum_of g (all_found (map lines_.line_document (documents text)))
  slices-text threads fits =
      slices-sum have text size threads
        (λ slice. sum_of g (piece_values (api.iterate_many false) f (corpus_format have) slice))
        of_line (λ i. values-lines (slice_at text newline size i) (lines_.slices i)) fits
      ∙ sym (extracted-lines (documents text))

-- If the stream parser finds one document in each line of the text, read as a whole as in each of
-- its slices, then a parallel run of simdjson, at any number of threads, assignment of slices and
-- interleaving in which all threads end, gives the result of the serial run without a trace, if
-- the sums of the loop fit in 64 bits.
pub run_parallel-run_serial-PerLine :
    (api : Api) (q : QueryId) (w : Workload) (hw : ℕ) (have threaded : Bool) (data_ : Bytes)
    (size batch_bytes threads slice_bytes : ℕ) (static : Bool) (sched : List ℕ)
    → PerLine api
        (corpus_format have)
        (corpus_format have)
        threaded
        (take size data_)
        batch_bytes
        (slice_size slice_bytes)
    → let opt = parallel_options have threads slice_bytes static in
      Fits (length (take size data_)) (slice_size slice_bytes) (worker_count hw have opt)
      → all_done (
          parse_workers
            (api.iterate_many false)
            (extract api q w)
            hw
            have
            (take size data_)
            (parallel_options have threads slice_bytes static)
            sched)
        ≡ true
      → run_parallel api hw have data_ size q w threads slice_bytes static sched
        ≡ (run_serial api have data_ size q w threaded batch_bytes none 0).0
unfolding run_parallel run_serial
run_parallel-run_serial-PerLine api q w hw have threaded data_ size batch_bytes threads slice_bytes
      static sched lines_ fits d =
    let text = take size data_ in
    let opt = parallel_options have threads slice_bytes static in
    let bytes = slice_size slice_bytes in
    let docs = map lines_.line_document (documents text) in
    let es = extracted (api.iterate_many false) (extract api q w) docs in
    let serial : (run_serial_format api data_ size q w threaded batch_bytes (corpus_format have)
          none 0).0
        ≡ merge_values es no_extraction =
      run_serial_format-extracted api q w data_ size threaded batch_bytes (corpus_format have) none
        0
      ∙ rw lines_.whole refl in
    let shards =
      (parse_many (api.iterate_many false) (extract api q w) hw have text opt sched).shards in
    let par = merge_result-Adds shards in
    let ser = merge_values-Adds es in
    let total = λ (g : Extraction → ℕ).
      (parse_many-slices (api.iterate_many false) (extract api q w) hw have text opt sched g fits
        d).0
      ∙ ap (λ t. t % u64_mod)
          (slices-text api (extract api q w) (corpus_format have) have threaded text batch_bytes
            bytes lines_ g (worker_count hw have opt) fits) in
    extraction_eq _ _ (par.word no_extraction empty-IsWord) (ser.word no_extraction empty-IsWord)
      (par.sum no_extraction ∙ omega (arith, total (λ e. e.sum)) ∙ sym (ser.sum no_extraction))
      (par.matches no_extraction
        ∙ omega (arith, total (λ e. e.matches))
        ∙ sym (ser.matches no_extraction))
      (par.quiet no_extraction refl ∙ sym (ser.quiet no_extraction refl))
      (par.limit no_extraction ∙ sym (ser.limit no_extraction))
    ∙ sym serial
