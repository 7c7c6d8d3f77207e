-- ===== src/Tests/Formats.antt =====
-- The study of the formats with a library that splits at commas and line feeds, and a command line.
use jsonstreambench.Prelude.{
  ℕ, ◌≡◌, refl, List, [], ◌∷◌, ◌++◌, ◌*◌, ◌^◌, map, true, none, Bytes, codes, length, take,
  if◌then◌else◌, ◌==◌, arith,
}
use jsonstreambench.Lines.{newline}
use jsonstreambench.Lines.Split.{documents}
use jsonstreambench.QueryId.{twitter}
use jsonstreambench.Loaders.Records.{records}
use jsonstreambench.Ondemand.{Api}
use jsonstreambench.Driver.Options.{default_options, parse_args, accepted}
use jsonstreambench.Driver.Options.Lists.{comma_list, parse_args-threads}
use jsonstreambench.Driver.Format.{format_study}
use jsonstreambench.Driver.Format.Agree.{FormsAgree, format_study-FormsAgree}
use jsonstreambench.Driver.Format.Records.{join}
use jsonstreambench.Tests.Toy.{toy}

abbrev at_commas : Bytes → Bytes
at_commas s = map (λ c. if c == b',' then newline else c) s

abbrev comma_toy : Api
comma_toy = record toy { iterate_many = λ threaded s batch format. (0, documents (at_commas s)) }

abbrev two_lines : Bytes
two_lines = codes "{\"a\":1}" ++ newline ∷ (codes "{\"b\":2}" ++ newline ∷ [])

format_study_example :
    (2 ≡ length (records (take 16 two_lines)))
    × FormsAgree comma_toy twitter (2 ^ 20) two_lines 16 (join (records (take 16 two_lines)))
unfolding format_study jsonstreambench.Prelude.window jsonstreambench.Trim.shrink
    jsonstreambench.Loaders.behind_newline jsonstreambench.Lines.memchr
    jsonstreambench.Loaders.is_terminator jsonstreambench.Simdjson.Runs.run_serial_format documents
    jsonstreambench.Lines.Split.documents_of jsonstreambench.Lines.Split.lines
    jsonstreambench.Lines.Split.extend jsonstreambench.Lines.Split.is_nil jsonstreambench.Trim.rtrim
    jsonstreambench.Lines.is_line_space jsonstreambench.Simdjson.Runs.stream_document
    jsonstreambench.Simdjson.dispatch jsonstreambench.Simdjson.run_query
    jsonstreambench.Driver.Format.comma_loop jsonstreambench.Driver.Format.comma_text
    jsonstreambench.Driver.Format.each_encoding jsonstreambench.Driver.Format.encodings
    jsonstreambench.Driver.Format.format_passes jsonstreambench.Driver.Format.is_canonical
    jsonstreambench.Driver.Format.push_record jsonstreambench.Driver.Format.study_text
    jsonstreambench.Driver.Format.take_record jsonstreambench.Extraction.back
    jsonstreambench.Extraction.feed jsonstreambench.Extraction.hash
    jsonstreambench.Extraction.is_empty jsonstreambench.Extraction.is_quoted
    jsonstreambench.Extraction.is_ws jsonstreambench.Extraction.merge
    jsonstreambench.Extraction.normalize jsonstreambench.Extraction.record_trace
    jsonstreambench.Extraction.remove_suffix jsonstreambench.Extraction.trim
    jsonstreambench.Extraction.trim_front jsonstreambench.Extraction.trim_token
    jsonstreambench.Prelude.visit jsonstreambench.QueryId.bytes_eq
    jsonstreambench.Simdjson.each_cell jsonstreambench.Simdjson.each_field
    jsonstreambench.Simdjson.each_index jsonstreambench.Simdjson.each_root_field
    jsonstreambench.Simdjson.openalex_field jsonstreambench.Simdjson.q_bestbuy
    jsonstreambench.Simdjson.q_google jsonstreambench.Simdjson.q_nspl
    jsonstreambench.Simdjson.q_openalex jsonstreambench.Simdjson.q_twitter
    jsonstreambench.Simdjson.q_walmart jsonstreambench.Simdjson.q_wiki
    jsonstreambench.Simdjson.take_decoded jsonstreambench.Simdjson.take_value
    jsonstreambench.Simdjson.twitter_field jsonstreambench.Simdjson.walmart_field
format_study_example =
    format_study-FormsAgree comma_toy twitter (2 ^ 20) two_lines 16 2 (omega arith) (omega arith)
      refl

-- A list of threads with an empty token in it.
threads_line :
    parse_args
      (codes "--dataset"
        ∷ codes "a.json"
        ∷ codes "--threads"
        ∷ codes "1,,16"
        ∷ codes "--verify"
        ∷ [])
      default_options
    ≡ accepted (record default_options {
      dataset = codes "a.json";
      threads = 1 ∷ 16 ∷ [];
      verify_only = true;
    })
unfolding parse_args jsonstreambench.Driver.Options.argument jsonstreambench.Driver.Options.tokens
    jsonstreambench.Driver.Options.push_threads jsonstreambench.Driver.Options.strtoull
    jsonstreambench.Driver.Options.read_number jsonstreambench.Driver.Options.read_sign
    jsonstreambench.Driver.Options.read_digits jsonstreambench.QueryId.bytes_eq
    jsonstreambench.Driver.Options.assign jsonstreambench.Driver.Options.atoi
threads_line = refl

threads_example :
    parse_args
      (codes "--threads" ∷ comma_list (1 ∷ 16 ∷ []) ∷ codes "--verify" ∷ [])
      default_options
    ≡ parse_args (codes "--verify" ∷ []) (record default_options { threads = 1 ∷ 16 ∷ [] })
threads_example =
    parse_args-threads (1 ∷ 16 ∷ []) (codes "--verify" ∷ []) default_options
      (omega arith, (omega arith, tt))
