-- ===== src/Lib.antt =====
-- The models and proofs of jsonstreambench, a benchmark of parsers of streams of JSON documents.
--
-- The program times several JSON libraries on files of JSON lines, serially and in parallel, and
-- compares what they extract. A query is run on each document, and what it selects is fed into a
-- sink that adds hashes. A parallel run cuts the input into slices at line feeds; worker threads
-- claim the slices, and their sinks are merged at the end. For the library Pison, loaders build a
-- padded copy of the input and a table of its records.
--
-- The files and what they model:
--   Prelude               tests and lists over the native numbers, bytes and windows of them
--   Trim                  the loop that drops bytes at the end of a window; it occurs in
--                         src/dom_queries.h, src/common.h and src/loaders.h
--   Extraction            src/common.h, `extraction`: `trim_token`, `normalize`, `feed`, `merge`
--   QueryId               src/common.h and src/queries.cpp: `query_id`, `query_name`,
--                         `query_from_name`, `query_levels`, `bulky_array`, `query_from_path`
--   Lines                 src/dom_queries.h, `for_each_line`
--   DomQueries            src/dom_queries.h: the queries and `run_query`, against `Traits`
--   Slicing               src/dom_parallel.h, `snap_to_newline`; src/parallel_stream.h, `slice_at`
--   Pool                  the threads that claim work: the loop in `run_sliced`, as steps
--   Sliced                src/dom_parallel.h, `run_sliced`, an instance of Pool
--   ParseMany             src/parallel_stream.h, `parse_many`, another instance of Pool
--   DomWorker             what the tree-building engines share: one worker, serial or sliced
--   Yyjson, Rapidjson, BoostJson, Nlohmann
--                         src/yyjson_engine.cpp, src/rapidjson_engine.cpp,
--                         src/boost_json_engine.cpp, src/nlohmann_engine.cpp
--   DomEngine             src/dom_engine.cpp: dispatch and `scan_corpus`; src/main.cpp,
--                         `derive_slice_kib`
--   Loaders               src/loaders.h: `chunk_bounds`, `scan_range`, `padded_length`,
--                         `boundary_scan`, `reference_loader`, `fast_loader`
--   Pison                 src/pison_engine.cpp: `feed_decoded`, the queries over the bitmap iterator,
--                         `run_stream` and `run_single_record`; another instance of Pool
--   Ondemand              the part of simdjson's On-Demand API that is called: a record
--   Simdjson              src/simdjson_engine.cpp: `take`, the queries, `dispatch`, the runs over a
--                         stream, over one document, and in parallel by ParseMany
--   Arena                 cujson_baseline/cujson_baseline.cpp: the allocation functions
--   GithubArchive         cujson_baseline/github_archive.cpp: `push_repo_name`, the passes over the
--                         events, and the comparison of the runs in `main`
--   MakeNdjson            tools/make_ndjson.cpp
--   Driver                src/main.cpp: the command line, the defaults, the agreement of the engines,
--                         the exit status, and the study of the formats
--   Tests                 theorems at small inputs
--
-- A text is a list of bytes, `size_t` and `uint64_t` are numbers whose sums wrap at `2 ^ 64`, and
-- a `uint32_t` wraps at `2 ^ 32`. Positions that the code has compared with a size are not
-- wrapped. The JSON libraries are records of parameters (`YyApi` and the others); `iterate_many`,
-- `extract` and the rendering of a double are parameters too, and so is Pison's bitmap iterator
-- (`BitmapIterator`). Memory that a loader allocates is a parameter as well.
--
-- Threads: a pool is a counter and the state of each thread, and one step of one thread is a
-- claim, a `break`, or the work behind a claim. An interleaving is the list of the threads that
-- step. The work of a step touches the thread's own shard only, so that a whole slice is one
-- step.
--
-- Loops over an input have fuel: `for_each_line` and `scan_range` have one round more than there
-- are bytes, and each round moves on by a byte at least, so that no round is left undone. The
-- loops over Pison's iterator have as many rounds as it has positions, `rounds`.
--
-- The On-Demand API is a record as well (`Api`): its results are values or error codes, and a
-- value can be read as often as one likes, where simdjson reads forward only. The answers of
-- `mmap` and `malloc` are arguments of the arena, whose system calls are a list.
--
-- Not modelled: clocks, counters, files and printing; the arenas of the engines; Pison's own
-- loader; the command lines of the other programs and the driver of the cuJSON baseline.
pub mod Arena
pub mod BoostJson
pub mod DomEngine
pub mod DomQueries
pub mod DomWorker
pub mod Driver
pub mod Extraction
pub mod GithubArchive
pub mod Lines
pub mod Loaders
pub mod MakeNdjson
pub mod Nlohmann
pub mod Ondemand
pub mod ParseMany
pub mod Pison
pub mod Pool
pub mod Prelude
pub mod QueryId
pub mod Rapidjson
pub mod Simdjson
pub mod Sliced
pub mod Slicing
pub mod Tests
pub mod Trim
pub mod Yyjson
