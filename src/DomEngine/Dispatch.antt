-- ===== src/DomEngine/Dispatch.antt =====
-- src/dom_engine.cpp: `run_parallel` beside `run_serial`.
use jsonstreambench.Prelude.{ℕ, ◌≤◌, ◌≡◌, List, Bool, true, Bytes, length}
use jsonstreambench.QueryId.{QueryId}
use jsonstreambench.Yyjson.{yyjson-IsAdditive, yyjson_run_serial, yyjson_run_parallel}
use jsonstreambench.Yyjson.{yyjson as yyjson_parser}
use jsonstreambench.Rapidjson.{rapidjson-IsAdditive, rapidjson_run_serial, rapidjson_run_parallel}
use jsonstreambench.Rapidjson.{rapidjson as rapidjson_parser}
use jsonstreambench.BoostJson.{
  boost_json-IsAdditive, boost_json_run_serial, boost_json_run_parallel,
}
use jsonstreambench.BoostJson.{boost_json as boost_json_parser}
use jsonstreambench.Nlohmann.{nlohmann-IsAdditive, nlohmann_run_serial, nlohmann_run_parallel}
use jsonstreambench.Nlohmann.{nlohmann as nlohmann_parser}
use jsonstreambench.Pool.{all_done}
use jsonstreambench.Sliced.{thread_count, slice_size, sliced_pool}
use jsonstreambench.Sliced.Pieces.{Fits}
use jsonstreambench.DomWorker.{Parser, work}
use jsonstreambench.DomWorker.Agree.{worker_parallel-worker_serial}
use jsonstreambench.DomEngine.{
  Library, yyjson, rapidjson, boost_json, nlohmann, Build, run_serial, run_parallel,
}

-- The parser behind a library.
abbrev pub parser_of : Build → Library → Parser
parser_of b yyjson = yyjson_parser b.yyjson_api
parser_of b rapidjson = rapidjson_parser b.rapidjson_api
parser_of b boost_json = boost_json_parser b.boost_json_api
parser_of b nlohmann = nlohmann_parser b.nlohmann_api

-- The threads of a parallel run have all left their loops.
abbrev pub Joined : Build → Library → Bytes → ℕ → QueryId → ℕ → ℕ → Bool → List ℕ → Type 0
Joined b lib data_ size q threads slice_bytes static sched =
    all_done
      (sliced_pool data_ size threads slice_bytes (λ d. work (parser_of b lib) q d (length d))
        static sched).workers
    ≡ true

-- For every library, thread count, slice size, assignment of slices and interleaving in which all
-- threads end, the parallel run gives the result of the serial run, if the sums of the slicing
-- loop fit in 64 bits; a library that the build lacks gives the empty result in both.
pub run_parallel-run_serial :
    (b : Build) (lib : Library) (data_ : Bytes) (size : ℕ) (q : QueryId) (threads slice_bytes : ℕ)
    (static : Bool) (sched : List ℕ)
    → size ≤ length data_
    → Fits size (slice_size slice_bytes) (thread_count threads)
    → Joined b lib data_ size q threads slice_bytes static sched
    → run_parallel b lib data_ size q threads slice_bytes static sched
      ≡ run_serial b lib data_ size q
unfolding run_parallel run_serial yyjson_run_serial yyjson_run_parallel rapidjson_run_serial
    rapidjson_run_parallel boost_json_run_serial boost_json_run_parallel nlohmann_run_serial
    nlohmann_run_parallel
run_parallel-run_serial b yyjson data_ size q threads slice_bytes static sched within fits joined =
    rw (
      worker_parallel-worker_serial (yyjson_parser b.yyjson_api) (yyjson-IsAdditive b.yyjson_api) q
        data_ size threads slice_bytes static sched within fits joined)
run_parallel-run_serial b rapidjson data_ size q threads slice_bytes static sched within fits
      joined =
    rw (
      worker_parallel-worker_serial (rapidjson_parser b.rapidjson_api)
        (rapidjson-IsAdditive b.rapidjson_api) q data_ size threads slice_bytes static sched within
        fits joined)
run_parallel-run_serial b boost_json data_ size q threads slice_bytes static sched within fits
      joined =
    rw (
      worker_parallel-worker_serial (boost_json_parser b.boost_json_api)
        (boost_json-IsAdditive b.boost_json_api) q data_ size threads slice_bytes static sched
        within fits joined)
run_parallel-run_serial b nlohmann data_ size q threads slice_bytes static sched within fits
      joined =
    rw (
      worker_parallel-worker_serial (nlohmann_parser b.nlohmann_api)
        (nlohmann-IsAdditive b.nlohmann_api) q data_ size threads slice_bytes static sched within
        fits joined)
