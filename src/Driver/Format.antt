-- ===== src/Driver/Format.antt =====
-- src/main.cpp: the study of the formats of a stream. The corpus is written again with commas
-- between its records, and simdjson must find the same in every form.
pub mod Agree
pub mod Records
use jsonstreambench.Prelude.{
  ℕ, zero, suc, ◌+◌, ◌-◌, ◌%◌, Bool, true, false, ◌&&◌, not, List, [], ◌∷◌, ◌++◌, Option, none,
  some, Bytes, length, replicate, if◌then◌else◌, ltb, leb, ◌==◌, u64_mod, window,
}
use jsonstreambench.Extraction.{Extraction, no_extraction}
use jsonstreambench.QueryId.{QueryId}
use jsonstreambench.Trim.{shrink}
use jsonstreambench.Loaders.{min_record_bytes, is_terminator, behind_newline}
use jsonstreambench.ParseMany.{
  StreamFormat, newline_delimited, whitespace_delimited, comma_delimited,
}
use jsonstreambench.Ondemand.{Api}
use jsonstreambench.Simdjson
use jsonstreambench.Simdjson.Runs.{run_serial_format}
use jsonstreambench.Driver.{agrees}

-- `comma` and `comma_docs`.
pub record CommaText : Type 0 where
  pub text : Bytes
  pub docs : ℕ

unfoldable pub push_record : Bytes → CommaText → CommaText
push_record r comma = record {
  text = (if comma.docs == 0 then comma.text else comma.text ++ b',' ∷ []) ++ r;
  docs = (comma.docs + 1) % u64_mod;
}

-- A record of one to five bytes ends the study.
unfoldable pub take_record : Bytes → CommaText → Option CommaText
unfolding push_record
take_record r comma =
    if length r == 0
    then some comma
    else if leb (length r) min_record_bytes
    then none
    else some (push_record r comma)

-- The loop over the lines, with fuel.
unfoldable pub comma_loop : Bytes → ℕ → ℕ → ℕ → CommaText → Option CommaText
unfolding take_record
comma_loop data_ size zero pos comma = some comma
comma_loop data_ size (suc fuel) pos comma =
    let end = behind_newline data_ size pos in
    let r = window data_ pos (shrink is_terminator data_ pos (end - pos)) in
    let rest : Option CommaText = elim (take_record r comma) [
      | none ↦ none
      | some next ↦ comma_loop data_ size fuel end next
    ] in
    if ltb pos size then rest else some comma

abbrev pub no_comma : CommaText
no_comma = record { text = []; docs = 0 }

-- Each round moves `pos` on, so `size` rounds and one suffice.
unfoldable pub comma_text : Bytes → ℕ → Option CommaText
unfolding comma_loop
comma_text data_ size = comma_loop data_ size (size + 1) 0 no_comma

pub record Encoding : Type 0 where
  pub bytes : Bytes
  pub size : ℕ
  pub format : StreamFormat

-- `encodings`; the text with commas has 64 zero bytes behind it.
unfoldable pub encodings : Bytes → ℕ → Bytes → List Encoding
encodings data_ size comma =
    record { bytes = data_; size = size; format = newline_delimited }
    ∷ record { bytes = data_; size = size; format = whitespace_delimited }
    ∷ record { bytes = comma ++ replicate 64 0; size = length comma; format = comma_delimited }
    ∷ []

unfoldable pub is_canonical : Bool → StreamFormat → Bool
is_canonical false newline_delimited = true
is_canonical _ _ = false

module _ (api : Api) (q : QueryId) (batch : ℕ) where
  abbrev pub format_run : Bool → Encoding → Extraction
  format_run threaded enc =
      (run_serial_format api enc.bytes enc.size q Simdjson.query threaded batch enc.format none 0).0

  -- The inner loop; `none` is a disagreement, which ends the program.
  unfoldable pub each_encoding : Bool → List Encoding → Extraction → Option Extraction
  unfolding is_canonical
  each_encoding threaded [] canonical = some canonical
  each_encoding threaded (enc ∷ encs) canonical =
      let e = format_run threaded enc in
      if is_canonical threaded enc.format
      then each_encoding threaded encs e
      else let rest = each_encoding threaded encs canonical in
        if agrees e canonical then rest else none

  -- Both passes: one thread, then two.
  unfoldable pub format_passes : List Encoding → Option Extraction
  unfolding each_encoding
  format_passes encs = elim (each_encoding false encs no_extraction) [
    | none ↦ none
    | some canonical ↦ each_encoding true encs canonical
  ]

  unfoldable pub study_text : Bytes → ℕ → ℕ → CommaText → Option ℕ
  unfolding format_passes encodings
  study_text data_ size count comma =
      if comma.docs == count
      then elim (format_passes (encodings data_ size comma.text)) [
        | none ↦ some 2
        | some canonical ↦ none
      ]
      else some 2

  -- The status with which the study ends the program; `none` lets it go on. `count` is the number
  -- of records in the table.
  unfoldable pub format_study : Bytes → ℕ → ℕ → Option ℕ
  unfolding comma_text study_text
  format_study data_ size count = elim (comma_text data_ size) [
    | none ↦ some 2
    | some comma ↦ study_text data_ size count comma
  ]
