-- ===== src/Tests/Drivers.antt =====
-- The theorem on the verification with the small libraries of the other tests.
use jsonstreambench.Prelude.{
  ℕ, ◌≡◌, ◌↔◌, ◌++◌, ◌*◌, ◌^◌, refl, true, false, List, [], ◌∷◌, codes, arith,
}
use jsonstreambench.QueryId.{twitter}
use jsonstreambench.Sliced.Pieces.{Fits}
use jsonstreambench.DomEngine.{yyjson, rapidjson, boost_json, nlohmann}
use jsonstreambench.DomEngine.Dispatch.{Joined}
use jsonstreambench.Driver.{Setup, verdict, exits, thread_counts}
use jsonstreambench.Driver.Exit.{EnginesAgree, Runs, verdict-EnginesAgree}
use jsonstreambench.Driver.Threads.{IsSweep, thread_counts-IsSweep}
use jsonstreambench.Tests.Samples.{two_documents}
use jsonstreambench.Tests.Toy.{toy}
use jsonstreambench.Tests.Engines.{text_build}
use jsonstreambench.Tests.Streams.{any_pison, two_entries}

-- Each of the eight threads steps four times.
abbrev rounds : List ℕ
rounds = 0 ∷ 1 ∷ 2 ∷ 3 ∷ 4 ∷ 5 ∷ 6 ∷ 7 ∷ []

abbrev setup : Setup
setup = record {
  pison = any_pison;
  simdjson = toy;
  build = text_build;
  have_newline_delimited = true;
  query = twitter;
  levels = 2;
  data_ = two_documents;
  bytes = 9;
  text = [];
  table = two_entries;
  batch = 2 ^ 20;
  no_dom = false;
  schedule = λ lib. rounds ++ rounds ++ rounds ++ rounds;
}

eight_threads_Fit : Fits 9 (256 * 2 ^ 10) 8
unfolding jsonstreambench.Sliced.slice_count
eight_threads_Fit = record {
  size_pos = omega arith;
  sum = omega arith;
  room = omega arith;
  small = omega arith;
}

setup-Runs : Runs setup
unfolding jsonstreambench.Pool.all_done jsonstreambench.Sliced.sliced_pool jsonstreambench.Pool.run
    jsonstreambench.Pool.spawn jsonstreambench.Sliced.slice_count jsonstreambench.Pool.step
    jsonstreambench.Pool.advance jsonstreambench.Pool.claim jsonstreambench.Pool.settle
    jsonstreambench.Pool.spawn_from
setup-Runs = record {
  within = omega arith;
  fits = eight_threads_Fit;
  joined = λ lib.
      elim lib
        as (λ lib.
          Joined text_build lib two_documents 9 twitter 8 (256 * 2 ^ 10) false
            (rounds ++ rounds ++ rounds ++ rounds)) [
              | yyjson ↦ refl
              | rapidjson ↦ refl
              | boost_json ↦ refl
              | nlohmann ↦ refl
            ];
}

verdict_example : (verdict setup (codes "load,verify") 0 true ≡ exits 0) ↔ EnginesAgree setup
unfolding jsonstreambench.Driver.wants jsonstreambench.QueryId.contains
verdict_example = verdict-EnginesAgree setup (codes "load,verify") setup-Runs refl

thread_counts_example : (ts : List ℕ) × (thread_counts 6 ≡ 1 ∷ ts) × IsSweep 1 6 ts
thread_counts_example = thread_counts-IsSweep 6
