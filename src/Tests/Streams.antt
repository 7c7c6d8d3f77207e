-- ===== src/Tests/Streams.antt =====
-- The theorems on `parse_many` and on the Pison engine at small inputs; the stream parser takes every
-- slice for one document.
use jsonstreambench.Prelude.{
  inl, ◌++◌, codes, true, none, some, ◌+◌, ℕ, [], ◌∷◌, List, ◌≡◌, ◌%◌, false, refl, arith, Bytes,
  length, u64_mod,
}
use jsonstreambench.Slicing.{slice_at}
use jsonstreambench.Pool.Total.{range}
use jsonstreambench.Sliced.{slice_size, slice_count}
use jsonstreambench.Sliced.Pieces.{sum_of, Fits}
use jsonstreambench.ParseMany.{
  StreamFormat, whitespace_delimited, Options, delimiter_for, worker_count, parse_many,
}
use jsonstreambench.ParseMany.Slices.{piece_values, piece_errors}
use jsonstreambench.ParseMany.Totals.{parse_many-slices}
use jsonstreambench.QueryId.{twitter}
use jsonstreambench.Loaders.{RecordTable}
use jsonstreambench.Pison.{decode, decode_string}
use jsonstreambench.Pison.Decode.{decode_string-written, decode_string-escape}
use jsonstreambench.Pison.Strings.{
  Piece, plain, letter, unicode, letter_byte, ArePieces, written, meaning, escape,
}
use jsonstreambench.Pison.Queries.{BitmapIterator}
use jsonstreambench.Pison.Stream.{PisonApi, run_stream}
use jsonstreambench.Pison.Agree.{run_stream-serial}
use jsonstreambench.Tests.Samples.{two_documents}

abbrev one_document : Bytes → ℕ → StreamFormat → ℕ × List Bytes
one_document piece batch format = (0, piece ∷ [])

-- Documents of less than two bytes are errors.
abbrev extract_length : Bytes → ℕ × ℕ
extract_length (c ∷ d ∷ doc) = (0, length (c ∷ d ∷ doc))
extract_length doc = (7, 0)

abbrev two_threads : Options
two_threads = record {
  threads = 2;
  slice_bytes = 4;
  format = whitespace_delimited;
  static_partition = false;
}

abbrev turns : List ℕ
turns = 0 ∷ 1 ∷ 1 ∷ 0 ∷ 0 ∷ 1 ∷ 0 ∷ 1 ∷ 0 ∷ 1 ∷ []

two_threads_Fit : Fits 9 4 2
unfolding jsonstreambench.Sliced.slice_count
two_threads_Fit = record {
  size_pos = omega arith;
  sum = omega arith;
  room = omega arith;
  small = omega arith;
}

parse_many_example :
    let out = parse_many one_document extract_length 1 false two_documents two_threads turns in
    let slice = λ (i : ℕ). slice_at two_documents (delimiter_for whitespace_delimited) 4 i in
    (sum_of (sum_of (λ v. v)) out.shards % u64_mod
      ≡ range
          (λ i.
            sum_of
              (λ v. v)
              (piece_values one_document extract_length whitespace_delimited (slice i)))
          0
          (slice_count 9 4)
        % u64_mod)
    × (out.errors
        ≡ range
            (λ i. piece_errors one_document extract_length whitespace_delimited (slice i))
            0
            (slice_count 9 4)
          % u64_mod)
unfolding jsonstreambench.Pool.all_done jsonstreambench.Pool.run jsonstreambench.Pool.spawn
    jsonstreambench.Pool.spawn_from jsonstreambench.Pool.step jsonstreambench.Pool.advance
    jsonstreambench.Pool.claim jsonstreambench.Pool.settle jsonstreambench.Sliced.slice_count
    jsonstreambench.ParseMany.worker_count jsonstreambench.ParseMany.splittable
    jsonstreambench.ParseMany.parse_workers
parse_many_example =
    parse_many-slices one_document extract_length 1 false two_documents two_threads turns (λ v. v)
      two_threads_Fit refl

-- An iterator that stands on a number and finds every key.
abbrev any_iterator : BitmapIterator
any_iterator = record {
  State = ℕ;
  rounds = 2;
  is_object = λ s. true;
  is_array = λ s. false;
  move_to_key = λ s key. (true, s + 1);
  move_to_any = λ s keys. elim keys [ [] ↦ (none, [], s) | key ∷ left ↦ (some key, left, s) ];
  move_to_index = λ s i. (true, s);
  move_next = λ s. (false, s);
  down = λ s. (true, s);
  up = λ s. s;
  get_value = λ s. (some (s ∷ []), s);
}

abbrev pub any_pison : PisonApi
any_pison = record {
  iterator = any_iterator;
  Bitmap = ℕ;
  construct = λ text offset len threads levels. some len;
  get_iterator = some;
  number = λ s. none;
}

abbrev pub two_entries : RecordTable
two_entries = record { offset = 0 ∷ 64 ∷ []; lengths = 64 ∷ 128 ∷ [] }

run_stream_example :
    run_stream any_pison [] two_entries twitter decode 2 2 none 0 turns
    ≡ run_stream any_pison [] two_entries twitter decode 2 1 none 0 []
unfolding jsonstreambench.Pool.all_done jsonstreambench.Pool.run jsonstreambench.Pool.spawn
    jsonstreambench.Pool.spawn_from jsonstreambench.Pool.step jsonstreambench.Pool.advance
    jsonstreambench.Pool.claim jsonstreambench.Pool.settle
    jsonstreambench.Pison.Stream.stream_workers
run_stream_example =
    run_stream-serial any_pison [] two_entries twitter decode 2 2 (omega arith) (omega arith) turns
      [] refl

-- An `a`, a line feed, an `é` with digits in lower and in upper case, and a euro sign.
abbrev accents : List Piece
accents = plain b'a' ∷ letter b'n' ∷ unicode false 233 ∷ unicode true 233 ∷ unicode true 8364 ∷ []

accents-ArePieces : ArePieces accents
unfolding letter_byte
accents-ArePieces = (
  (omega arith, refl, refl),
  ((10, refl), (inl (omega arith), (inl (omega arith), (inl (omega arith), tt)))),
)

written_example : decode_string (b'"' ∷ (written accents ++ b'"' ∷ [])) ≡ meaning accents
written_example = decode_string-written accents accents-ArePieces

decode_example :
    decode_string (b'"' ∷ (escape (1 ∷ codes "a\"\n") ++ b'"' ∷ [])) ≡ 1 ∷ codes "a\"\n"
decode_example = decode_string-escape (1 ∷ codes "a\"\n")
