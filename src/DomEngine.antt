-- ===== src/DomEngine.antt =====
-- src/dom_engine.cpp and src/dom_engine.h: the libraries, the dispatch to each of them, and the
-- corpus statistics from which src/main.cpp derives the slice size.
pub mod Dispatch
pub mod Corpus
use jsonstreambench.Prelude.{
  ℕ, ◌+◌, ◌*◌, ◌%◌, List, [], ◌∷◌, Bool, true, false, Bytes, codes, if◌then◌else◌, ltb, leb, length,
  u64_mod,
}
use jsonstreambench.Extraction.{Extraction, no_extraction}
use jsonstreambench.Lines.{for_each_line}
use jsonstreambench.QueryId.{QueryId}
use jsonstreambench.Yyjson
use jsonstreambench.Yyjson.{YyApi}
use jsonstreambench.Rapidjson
use jsonstreambench.Rapidjson.{RapidApi}
use jsonstreambench.BoostJson
use jsonstreambench.BoostJson.{BoostApi}
use jsonstreambench.Nlohmann
use jsonstreambench.Nlohmann.{NlohmannApi}

pub data Library : Type 0 where
  yyjson rapidjson boost_json nlohmann : Library

-- A build: the `JSONBENCH_HAVE_` macros, and the libraries.
pub record Build : Type 1 where
  pub have_yyjson : Bool
  pub have_rapidjson : Bool
  pub have_boost_json : Bool
  pub have_nlohmann : Bool
  pub yyjson_api : YyApi
  pub rapidjson_api : RapidApi
  pub boost_json_api : BoostApi
  pub nlohmann_api : NlohmannApi

unfoldable pub library_name : Library → Bytes
library_name yyjson = codes "yyjson"
library_name rapidjson = codes "rapidjson"
library_name boost_json = codes "boost.json"
library_name nlohmann = codes "nlohmann"

unfoldable pub engine_name : Library → Bool → Bytes
engine_name yyjson parallel = if parallel then codes "yyjson-parallel" else codes "yyjson"
engine_name rapidjson parallel = if parallel then codes "rapidjson-parallel" else codes "rapidjson"
engine_name boost_json parallel =
    if parallel then codes "boost.json-parallel" else codes "boost.json"
engine_name nlohmann parallel = if parallel then codes "nlohmann-parallel" else codes "nlohmann"

unfoldable pub available : Build → Library → Bool
available b yyjson = b.have_yyjson
available b rapidjson = b.have_rapidjson
available b boost_json = b.have_boost_json
available b nlohmann = b.have_nlohmann

unfoldable pub run_serial : Build → Library → Bytes → ℕ → QueryId → Extraction
run_serial b yyjson data_ size q =
    if b.have_yyjson then Yyjson.yyjson_run_serial b.yyjson_api data_ size q else no_extraction
run_serial b rapidjson data_ size q =
    if b.have_rapidjson
    then Rapidjson.rapidjson_run_serial b.rapidjson_api data_ size q
    else no_extraction
run_serial b boost_json data_ size q =
    if b.have_boost_json
    then BoostJson.boost_json_run_serial b.boost_json_api data_ size q
    else no_extraction
run_serial b nlohmann data_ size q =
    if b.have_nlohmann
    then Nlohmann.nlohmann_run_serial b.nlohmann_api data_ size q
    else no_extraction

-- `static` is `static_partition_flag()`.
unfoldable pub run_parallel :
    Build → Library → Bytes → ℕ → QueryId → ℕ → ℕ → Bool → List ℕ → Extraction
run_parallel b yyjson data_ size q threads slice_bytes static sched =
    if b.have_yyjson
    then Yyjson.yyjson_run_parallel b.yyjson_api data_ size q threads slice_bytes static sched
    else no_extraction
run_parallel b rapidjson data_ size q threads slice_bytes static sched =
    if b.have_rapidjson
    then Rapidjson.rapidjson_run_parallel b.rapidjson_api data_ size q threads slice_bytes static
        sched
    else no_extraction
run_parallel b boost_json data_ size q threads slice_bytes static sched =
    if b.have_boost_json
    then BoostJson.boost_json_run_parallel b.boost_json_api data_ size q threads slice_bytes static
        sched
    else no_extraction
run_parallel b nlohmann data_ size q threads slice_bytes static sched =
    if b.have_nlohmann
    then Nlohmann.nlohmann_run_parallel b.nlohmann_api data_ size q threads slice_bytes static sched
    else no_extraction

pub record CorpusStats : Type 0 where
  pub longest : ℕ
  pub bytes_above : List ℕ  -- size_t bytes_above[5]

-- `thresholds`, in bytes.
abbrev pub thresholds : List ℕ
thresholds = 64 * 1024 ∷ 128 * 1024 ∷ 256 * 1024 ∷ 512 * 1024 ∷ 1024 * 1024 ∷ []

-- The inner loop: `if (n > thresholds[i]) { bytes_above[i] += n; }`.
unfoldable pub add_above : ℕ → List ℕ → List ℕ → List ℕ
add_above n (t ∷ ts) (a ∷ above) = (if ltb t n then (a + n) % u64_mod else a) ∷ add_above n ts above
add_above n _ above = above

-- The function that `for_each_line` is given.
unfoldable pub add_line : Bytes → CorpusStats → CorpusStats
unfolding add_above
add_line line stats =
    let n = length line in
    record {
      longest = if ltb stats.longest n then n else stats.longest;
      bytes_above = add_above n thresholds stats.bytes_above;
    }

unfoldable pub scan_corpus : Bytes → ℕ → CorpusStats
scan_corpus data_ size =
    for_each_line data_ size add_line (record { longest = 0; bytes_above = 0 ∷ 0 ∷ 0 ∷ 0 ∷ 0 ∷ [] })

-- The candidates, the loop over them and the value behind the loop.
unfoldable pub derive_from : List ℕ → List ℕ → ℕ → ℕ
derive_from (a ∷ above) (c ∷ cs) total_bytes =
    if leb (a * 100 % u64_mod) total_bytes then c else derive_from above cs total_bytes
derive_from _ _ total_bytes = 1024

unfoldable pub derive_slice_kib : CorpusStats → ℕ → ℕ
unfolding derive_from
derive_slice_kib stats total_bytes =
    derive_from stats.bytes_above (64 ∷ 128 ∷ 256 ∷ 512 ∷ 1024 ∷ []) total_bytes
