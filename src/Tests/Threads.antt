-- ===== src/Tests/Threads.antt =====
-- The theorems on the worker threads at small pools.
use jsonstreambench.Prelude.{
  ℕ, [], ◌∷◌, List, ◌+◌, ◌*◌, ◌≤◌, ◌%◌, ◌≡◌, Bool, true, false, refl, arith, length, leb, u64_mod,
}
use jsonstreambench.Extraction.{no_extraction, feed, hash, normalize}
use jsonstreambench.Extraction.Sum.{feed-Adds}
use jsonstreambench.Lines.{for_each_line}
use jsonstreambench.Pool.{Job, run, spawn}
use jsonstreambench.Pool.Total.{total, range}
use jsonstreambench.Pool.Dynamic.{Counts, Ends}
use jsonstreambench.Pool.Finish.{busy_steps, dynamic_total, dynamic_busy_steps}
use jsonstreambench.Pool.Static.{static_total}
use jsonstreambench.Sliced.{run_sliced}
use jsonstreambench.Sliced.Pieces.{Fits}
use jsonstreambench.Sliced.Serial.{run_sliced-for_each_line}
use jsonstreambench.Tests.Samples.{two_documents}

-- Three claims of ten each, whose tokens the shards add up.
abbrev adding : Bool → Job ℕ
adding static = record {
  static = static;
  unit = 10;
  stop = λ token. leb 30 token;
  work = λ token shard. shard + token;
}

adding-Counts : (static : Bool) → Counts (adding static) (λ s. s) (λ token. token)
adding-Counts static = record { adds = λ token s. refl }

adding-Ends : (static : Bool) → Ends (adding static) 3 2
adding-Ends static = record { goes = λ k h. ground arith; stops = λ k h few. ground arith }

-- Two threads in turns.
abbrev turns : List ℕ
turns = 0 ∷ 1 ∷ 0 ∷ 1 ∷ 0 ∷ 1 ∷ 0 ∷ 1 ∷ 0 ∷ 1 ∷ []

dynamic_example :
    total (λ w. w.shard) (run (adding false) turns (spawn 0 3 2)).workers % u64_mod
    ≡ range (λ j. j * 10) 0 3 % u64_mod
unfolding jsonstreambench.Pool.all_done run spawn
dynamic_example =
    dynamic_total (adding false) (λ s. s) (λ token. token) 3 2 refl (adding-Counts false)
      (adding-Ends false) 0 3 2 refl (omega arith) (omega arith) turns (omega arith) refl

busy_example : busy_steps (adding false) turns (spawn 0 3 2) ≤ 2 * 3 + 2
busy_example =
    dynamic_busy_steps (adding false) (λ s. s) (λ token. token) 3 2 refl (adding-Counts false)
      (adding-Ends false) 0 3 2 refl (omega arith) (omega arith) turns

static_example :
    total (λ w. w.shard) (run (adding true) turns (spawn 0 3 2)).workers % u64_mod
    ≡ range (λ j. j * 10) 0 3 % u64_mod
unfolding jsonstreambench.Pool.all_done run spawn
static_example =
    static_total (adding true) (λ s. s) (λ token. token) 3 2 refl (adding-Counts true) 2
      (adding-Ends true) (omega arith) (omega arith) (omega arith) 0 turns refl refl

small_Fits : Fits 9 4 2
unfolding jsonstreambench.Sliced.slice_count
small_Fits = record {
  size_pos = omega arith;
  sum = omega arith;
  room = omega arith;
  small = omega arith;
}

sliced_example :
    run_sliced two_documents 9 2 4 (λ t. for_each_line t (length t) feed) false turns
    ≡ for_each_line two_documents 9 feed no_extraction
unfolding jsonstreambench.Pool.all_done jsonstreambench.Sliced.sliced_pool run spawn
sliced_example =
    run_sliced-for_each_line two_documents 9 2 4 feed (λ d. hash (normalize d)) (λ d. 1) false turns
      (omega arith) small_Fits feed-Adds refl
