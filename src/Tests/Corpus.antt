-- ===== src/Tests/Corpus.antt =====
-- The theorems on the corpus generator at a small document.
use jsonstreambench.Prelude.{◌≡◌, refl, true, [], ◌∷◌, none, some, Bytes, codes}
use jsonstreambench.Lines.{newline}
use jsonstreambench.Lines.Split.{lines}
use jsonstreambench.Ondemand.{ok}
use jsonstreambench.MakeNdjson.{make_ndjson}
use jsonstreambench.MakeNdjson.Lines.{AllLines, make_ndjson-lines}
use jsonstreambench.Tests.Toy.{toy}
use jsonstreambench.Tests.Samples.{two_documents}

two_lines : AllLines (codes "{}" ∷ codes "[1]" ∷ [])
two_lines = ((refl, (refl, tt)), ((refl, (refl, (refl, tt))), tt))

make_ndjson_example :
    let out =
      make_ndjson toy (λ path. ok two_documents) (λ path. true) (codes "in" ∷ codes "out" ∷ []) in
    (out.status ≡ 0)
    × (file : Bytes) × (out.file ≡ some file)
    × (lines file ≡ codes "{}" ∷ codes "[1]" ∷ [])
unfolding jsonstreambench.MakeNdjson.choose_items jsonstreambench.MakeNdjson.Lines.records
    jsonstreambench.Lines.Split.documents jsonstreambench.Lines.Split.documents_of lines
    jsonstreambench.Lines.Split.extend jsonstreambench.Lines.Split.is_nil jsonstreambench.Trim.rtrim
    jsonstreambench.Lines.is_line_space
make_ndjson_example =
    make_ndjson-lines toy (λ path. ok two_documents) (λ path. true) (codes "in") (codes "out") none
      [] two_documents two_documents (codes "<root>") two_documents (codes "{}" ∷ codes "[1]" ∷ [])
      two_lines refl refl refl refl refl
