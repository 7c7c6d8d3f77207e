-- ===== src/DomWorker.antt =====
-- What src/yyjson_engine.cpp, src/rapidjson_engine.cpp, src/boost_json_engine.cpp and
-- src/nlohmann_engine.cpp have in common: a worker that parses line after line and runs the query on
-- each document, once over the whole input or under `run_sliced`.
pub mod Agree
use jsonstreambench.Prelude.{ℕ, List, Option, none, some, Bool, Bytes, length}
use jsonstreambench.Extraction.{Extraction, no_extraction}
use jsonstreambench.Lines.{for_each_line}
use jsonstreambench.QueryId.{QueryId}
use jsonstreambench.DomQueries.{Traits, run_query}
use jsonstreambench.Sliced.{run_sliced}

-- A library's traits, and its parse of one line: `none` is a parse error.
pub record Parser : Type 1 where
  pub traits : Traits
  pub parse : Bytes → Option traits.Node

module _ (lib : Parser) where
  open lib use {traits, parse}

  -- A line that does not parse is passed over.
  unfoldable pub handle_line : QueryId → Bytes → Extraction → Extraction
  handle_line q line out = elim (parse line) [
    | none ↦ out
    | some root ↦ run_query traits q root out
  ]

  -- The call operator of the worker.
  unfoldable pub work : QueryId → Bytes → ℕ → Extraction → Extraction
  work q data_ size out = for_each_line data_ size (handle_line q) out

  unfoldable pub worker_serial : Bytes → ℕ → QueryId → Extraction
  worker_serial data_ size q = work q data_ size no_extraction

  unfoldable pub worker_parallel : Bytes → ℕ → QueryId → ℕ → ℕ → Bool → List ℕ → Extraction
  worker_parallel data_ size q threads slice_bytes static sched =
      run_sliced data_ size threads slice_bytes (λ d. work q d (length d)) static sched
