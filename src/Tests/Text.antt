-- ===== src/Tests/Text.antt =====
-- The theorems on text at small inputs: values, names, lines and slices.
use jsonstreambench.Prelude.{
  [], ◌∷◌, ◌++◌, ◌≡◌, ◌⊎◌, true, some, refl, arith, codes, take, map, visit,
}
use mathlib.Core.List
use mathlib.Core.List.{Perm}
use jsonstreambench.Extraction.{Extraction, no_extraction, normalize}
use jsonstreambench.Extraction.Sum.{feed_all, feed_all-Perm, feed_all-trace}
use jsonstreambench.Extraction.Token.{IsToken, Separator, normalize-Separator, normalize_quoted}
use jsonstreambench.QueryId.{
  QueryId, twitter, bestbuy, google_map, query_name, query_from_name, contains, query_from_path,
}
use jsonstreambench.QueryId.Names.{
  query_from_name-query_name, query_name_of_query_from_name, query_from_path-contains,
}
use jsonstreambench.Lines.{for_each_line, newline}
use jsonstreambench.Lines.Split.{documents}
use jsonstreambench.Lines.Loop.{for_each_line-documents}
use jsonstreambench.Slicing.Slices.{slices, slices_all}
use jsonstreambench.Tests.Samples.{two_documents}

for_each_line_example :
    for_each_line two_documents 9 (λ d ds. ds ++ d ∷ []) []
    ≡ visit (λ d ds. ds ++ d ∷ []) (documents (take 9 two_documents)) []
for_each_line_example =
    for_each_line-documents two_documents 9 (λ d ds. ds ++ d ∷ []) [] (omega arith)

for_each_line_run :
    visit (λ d ds. ds ++ d ∷ []) (documents (take 9 two_documents)) []
    ≡ codes "{}" ∷ codes "[1]" ∷ []
unfolding visit documents jsonstreambench.Lines.Split.documents_of jsonstreambench.Lines.Split.lines
    jsonstreambench.Lines.Split.extend jsonstreambench.Lines.Split.is_nil jsonstreambench.Trim.rtrim
    jsonstreambench.Lines.is_line_space
for_each_line_run = refl

slices_example : slices two_documents newline 4 (omega arith) (omega arith) 3 ≡ two_documents
slices_example = slices_all two_documents newline 4 (omega arith) (omega arith) 3 (omega arith)

names_example : query_from_name (query_name google_map) ≡ some google_map
names_example = query_from_name-query_name google_map

google_example :
    (codes "google" ≡ query_name google_map)
    ⊎ ((codes "google" ≡ codes "google") × (google_map ≡ google_map))
unfolding query_from_name jsonstreambench.QueryId.bytes_eq
google_example = query_name_of_query_from_name (codes "google") google_map refl

path_example :
    (contains (codes "/data/bb/x.json") (query_name bestbuy) ≡ true)
    ⊎ ((contains (codes "/data/bb/x.json") (codes "/bb/") ≡ true) × (bestbuy ≡ bestbuy)
        ⊎ (contains (codes "/data/bb/x.json") (codes "/gmp/") ≡ true) × (bestbuy ≡ google_map))
unfolding query_from_path contains
path_example = query_from_path-contains (codes "/data/bb/x.json") bestbuy refl

quoted_example : normalize (b'"' ∷ (codes "ru" ++ b'"' ∷ [])) ≡ codes "ru"
quoted_example = normalize_quoted (codes "ru")

abbrev traced : Extraction
traced = record { sum = 0; matches = 0; trace = some []; trace_limit = 1 }

trace_example :
    (feed_all (codes "\"a\"," ∷ codes "2" ∷ []) traced).trace
    ≡ some (take traced.trace_limit (map normalize (codes "\"a\"," ∷ codes "2" ∷ [])))
trace_example = feed_all-trace (codes "\"a\"," ∷ codes "2" ∷ []) traced refl

number_IsToken : IsToken (codes "12")
unfolding jsonstreambench.Extraction.is_ws
number_IsToken = record {
  first = refl;
  init = codes "1";
  last = b'2';
  ends = refl;
  last_ws = refl;
  last_comma = refl;
}

separator_example : normalize (codes " " ++ (codes "12" ++ codes " ,\t")) ≡ normalize (codes "12")
unfolding jsonstreambench.Extraction.is_ws
separator_example =
    normalize-Separator (codes " ") (codes "12") (codes " ,\t") number_IsToken (refl, tt)
      (Separator.comma (codes " ") (codes "\t") (refl, tt) (refl, tt))

swapped : Perm (codes "1" ∷ codes "true" ∷ []) (codes "true" ∷ codes "1" ∷ [])
swapped = List.perm_append_comm (codes "1" ∷ []) (codes "true" ∷ [])

order_example :
    ((feed_all (codes "1" ∷ codes "true" ∷ []) no_extraction).sum
      ≡ (feed_all (codes "true" ∷ codes "1" ∷ []) no_extraction).sum)
    × ((feed_all (codes "1" ∷ codes "true" ∷ []) no_extraction).matches
        ≡ (feed_all (codes "true" ∷ codes "1" ∷ []) no_extraction).matches)
order_example = feed_all-Perm no_extraction swapped
