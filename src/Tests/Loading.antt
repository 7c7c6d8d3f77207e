-- ===== src/Tests/Loading.antt =====
-- The theorems on the loaders and the corpus statistics at small inputs.
use jsonstreambench.Prelude.{
  ℕ, [], ◌∷◌, ◌+◌, ◌<◌, ◌≤◌, ◌%◌, ◌≡◌, ◌*◌, refl, some, arith, Bytes, length, length-replicate,
  take, replicate,
}
use jsonstreambench.Lines.Split.{documents}
use jsonstreambench.Loaders.{
  scan_range, boundary_scan, reference_loader, fast_loader, padded_length, scan_chunks,
  chunk_bounds,
}
use jsonstreambench.Loaders.Records.{records, texts, scan_range-records}
use jsonstreambench.Loaders.Padding.{padded_text, offsets_of, lengths_of, padded_length-multiple}
use jsonstreambench.Loaders.Layout.{reference_loader-padded_text}
use jsonstreambench.Loaders.Fast.{fast_loader-reference_loader, boundary_scan-reference_loader}
use jsonstreambench.DomEngine.{scan_corpus, derive_slice_kib}
use jsonstreambench.DomEngine.Corpus.{
  above, longest_of, IsChosen, scan_corpus-documents, derive_slice_kib-IsChosen,
}
use jsonstreambench.Tests.Samples.{two_documents, two_records, zeros}

zeros_lem : (n : ℕ) → (fresh : Bytes) × (zeros n ≡ some fresh) × (length fresh ≡ n)
zeros_lem n = (replicate n 0, refl, length-replicate n 0)

loaders_example : fast_loader zeros two_records 20 3 ≡ reference_loader zeros two_records 20
loaders_example = fast_loader-reference_loader zeros two_records 20 3 (omega arith)

layout_example :
    let out = reference_loader zeros two_records 20 in
    let rs = records (take 20 two_records) in
    (take (length (padded_text rs)) out.text ≡ padded_text rs)
    × (out.table.offset ≡ offsets_of 0 rs)
    × (out.table.lengths ≡ lengths_of rs)
layout_example =
    reference_loader-padded_text zeros two_records 20 (omega arith) (omega arith) zeros_lem

layout_run : offsets_of 0 (records (take 20 two_records)) ≡ 0 ∷ 64 ∷ []
unfolding offsets_of records jsonstreambench.Loaders.Records.records_of
    jsonstreambench.Lines.Split.lines jsonstreambench.Lines.Split.extend jsonstreambench.Trim.rtrim
    jsonstreambench.Loaders.is_terminator jsonstreambench.Loaders.Padding.padded
layout_run = refl

scan_example : texts two_records (scan_range two_records 0 20) ≡ records (take 20 two_records)
scan_example = scan_range-records two_records 20 (omega arith) (omega arith)

boundaries_example :
    boundary_scan two_records 20 2 ≡ length (reference_loader zeros two_records 20).table.offset
boundaries_example = boundary_scan-reference_loader zeros two_records 20 2 (omega arith)

padded_example :
    (padded_length 64 % 64 ≡ 0) × (64 < padded_length 64) × (padded_length 64 ≤ 64 + 64)
padded_example = padded_length-multiple 64 (omega arith)

corpus_example : scan_corpus two_documents 9 ≡ (
    let ds = documents (take 9 two_documents) in
    record {
      longest = longest_of ds;
      bytes_above =
          above (64 * 1024) ds
          ∷ above (128 * 1024) ds
          ∷ above (256 * 1024) ds
          ∷ above (512 * 1024) ds
          ∷ above (1024 * 1024) ds
          ∷ [];
    })
corpus_example = scan_corpus-documents two_documents 9 (omega arith) (omega arith)

slice_size_example :
    IsChosen
      (λ kib. above (kib * 1024) (documents (take 9 two_documents)))
      9
      (derive_slice_kib (scan_corpus two_documents 9) 9)
slice_size_example = derive_slice_kib-IsChosen two_documents 9 (omega arith) (omega arith)
