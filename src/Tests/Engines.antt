-- ===== src/Tests/Engines.antt =====
-- The theorems on queries and engines, with libraries in which a node is its text.
use jsonstreambench.Prelude.{
  ℕ, [], ◌∷◌, ◌++◌, List, none, some, true, false, ◌≡◌, refl, arith, Bytes, codes, visit,
}
use jsonstreambench.Extraction.{no_extraction}
use jsonstreambench.Extraction
use jsonstreambench.QueryId.{twitter, google_map}
use jsonstreambench.DomQueries.{Traits, run_query}
use jsonstreambench.DomQueries.Paths.{select_all, query_paths, run_query-select_all}
use jsonstreambench.Yyjson.{YyApi, str}
use jsonstreambench.Rapidjson.{RapidApi}
use jsonstreambench.BoostJson.{BoostApi, Kind}
use jsonstreambench.Nlohmann.{NlohmannApi}
use jsonstreambench.DomEngine.{Build, rapidjson, run_serial, run_parallel}
use jsonstreambench.DomEngine.Dispatch.{run_parallel-run_serial}
use jsonstreambench.Sliced.Pieces.{Fits}
use jsonstreambench.Tests.Samples.{two_documents}

-- Every node has every key, and two elements.
abbrev text_traits : Traits
text_traits = record {
  Node = Bytes;
  obj_get = λ v key. some (v ++ key);
  arr_at = λ v i. some v;
  elements = λ v. v ∷ v ∷ [];
  feed = Extraction.feed;
}

query_example :
    run_query text_traits google_map (codes "x") no_extraction
    ≡ visit Extraction.feed
        (select_all text_traits (query_paths google_map) (codes "x"))
        no_extraction
query_example = run_query-select_all text_traits google_map (codes "x") no_extraction

abbrev text_yyjson : YyApi
text_yyjson = record {
  Val = Bytes;
  Doc = Bytes;
  Double = ℕ;
  read = some;
  root = some;
  is_obj = λ v. true;
  is_arr = λ v. false;
  obj_getn = λ v key. some v;
  arr_get = λ v i. none;
  arr_items = λ v. [];
  get_type = λ v. str;
  get_str = λ v. v;
  get_num = λ v. 0;
  get_bool = λ v. false;
  render = λ d. [];
}

abbrev text_rapidjson : RapidApi
text_rapidjson = record {
  Val = Bytes;
  Double = ℕ;
  parse = some;
  is_object = λ v. true;
  find = λ v key. some v;
  is_array = λ v. false;
  size = λ v. 0;
  at = λ v i. v;
  items = λ v. [];
  is_string = λ v. true;
  get_string = λ v. v;
  is_number = λ v. false;
  get_double = λ v. 0;
  is_bool = λ v. false;
  get_bool = λ v. false;
  is_null = λ v. false;
  render = λ d. [];
}

abbrev text_nlohmann : NlohmannApi
text_nlohmann = record {
  Val = Bytes;
  Double = ℕ;
  parse = some;
  is_object = λ v. true;
  find = λ v key. some v;
  is_array = λ v. false;
  size = λ v. 0;
  at = λ v i. v;
  items = λ v. [];
  is_string = λ v. true;
  get_string = λ v. v;
  is_number = λ v. false;
  get_double = λ v. 0;
  is_bool = λ v. false;
  get_bool = λ v. false;
  is_null = λ v. false;
  render = λ d. [];
}

abbrev text_boost_json : BoostApi
text_boost_json = record {
  Val = Bytes;
  State = Bytes;
  Double = ℕ;
  write = some;
  finish = some;
  release = λ v. v;
  is_object = λ v. true;
  if_contains = λ v key. some v;
  is_array = λ v. false;
  size = λ v. 0;
  at = λ v i. v;
  items = λ v. [];
  kind = λ v. Kind.string;
  get_string = λ v. v;
  get_double = λ v. 0;
  double_of_int64 = λ v. 0;
  double_of_uint64 = λ v. 0;
  get_bool = λ v. false;
  render = λ d. [];
}

abbrev pub text_build : Build
text_build = record {
  have_yyjson = true;
  have_rapidjson = true;
  have_boost_json = true;
  have_nlohmann = false;
  yyjson_api = text_yyjson;
  rapidjson_api = text_rapidjson;
  boost_json_api = text_boost_json;
  nlohmann_api = text_nlohmann;
}

abbrev turns : List ℕ
turns = 0 ∷ 1 ∷ 1 ∷ 0 ∷ 0 ∷ 1 ∷ 0 ∷ 1 ∷ 0 ∷ 1 ∷ []

slices_Fit : Fits 9 4 2
unfolding jsonstreambench.Sliced.slice_count
slices_Fit = record {
  size_pos = omega arith;
  sum = omega arith;
  room = omega arith;
  small = omega arith;
}

engines_example :
    run_parallel text_build rapidjson two_documents 9 twitter 2 4 true turns
    ≡ run_serial text_build rapidjson two_documents 9 twitter
unfolding jsonstreambench.Pool.all_done jsonstreambench.Sliced.sliced_pool jsonstreambench.Pool.run
    jsonstreambench.Pool.spawn jsonstreambench.Sliced.slice_count jsonstreambench.Pool.step
    jsonstreambench.Pool.advance jsonstreambench.Pool.claim jsonstreambench.Pool.settle
    jsonstreambench.Pool.spawn_from
engines_example =
    run_parallel-run_serial text_build rapidjson two_documents 9 twitter 2 4 true turns
      (omega arith) slices_Fit refl
