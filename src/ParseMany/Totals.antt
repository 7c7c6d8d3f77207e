-- ===== src/ParseMany/Totals.antt =====
-- src/parallel_stream.h: the values and the errors of a whole run of `parse_many`.
use mathlib.Core.Path.{fun_ext}
use native.Mathlib.Nat.{mod-eq_of_lt}
use jsonstreambench.Prelude.{
  ℕ, ◌+◌, ◌*◌, ◌%◌, ◌≤◌, ◌<◌, ◌≡◌, refl, ap, ◌∙◌, List, [], ◌∷◌, ◌++◌, Bool, true, false, inl, inr,
  arith, Bytes, if◌then◌else◌, leb, ◌==◌, length, u64_mod, Bool-cases,
}
use jsonstreambench.Slicing.{slice_at}
use jsonstreambench.Pool.{Worker, run, spawn, all_done}
use jsonstreambench.Pool.Total.{total, range}
use jsonstreambench.Pool.Dynamic.{Counts, Ends, mul-le-mul_right}
use jsonstreambench.Pool.Finish.{dynamic_total}
use jsonstreambench.Pool.Static.{static_total}
use jsonstreambench.Sliced.{slice_size, slice_count}
use jsonstreambench.Sliced.Pieces.{sum_of, sum_of-append, Fits, claim_inside, claim_outside}
use jsonstreambench.ParseMany.{
  StreamFormat, Options, Shard, Result, no_shard, delimiter_for, worker_count, collect, parse_job,
  parse_workers, parse_many,
}
use jsonstreambench.ParseMany.Slices.{
  piece_values, piece_errors, parse_piece-values, parse_piece-errors,
}

module _ {Doc T : Type 0} (iterate_many : Bytes → ℕ → StreamFormat → ℕ × List Doc)
    (extract : Doc → ℕ × T) where
  module _ (json : Bytes) (size : ℕ) (format : StreamFormat) where
    abbrev slice : ℕ → Bytes
    slice i = slice_at json (delimiter_for format) size i

    values-Counts :
        (g : T → ℕ) (static : Bool)
        → Counts
            (parse_job iterate_many extract json size format static)
            (λ s. sum_of g s.values)
            (λ i. sum_of g (piece_values iterate_many extract format (slice i)))
    values-Counts g static = record {
      adds = λ i s.
          ap (λ t. t % u64_mod)
            (ap (sum_of g) (parse_piece-values iterate_many extract format (slice i) s)
              ∙ sum_of-append g s.values _);
    }

    errors-Counts :
        (static : Bool)
        → Counts
            (parse_job iterate_many extract json size format static)
            (λ s. s.errors)
            (λ i. piece_errors iterate_many extract format (slice i))
    errors-Counts static = record {
      adds = λ i s. parse_piece-errors iterate_many extract format (slice i) s;
    }

    module _ (static : Bool) (threads : ℕ) (fits : Fits (length json) size threads) where
      n : ℕ
      n = slice_count (length json) size

      goes_at : (k : ℕ) → k < n → leb (length json) (k * 1 * size % u64_mod) ≡ false
      unfolding n
      goes_at k h =
          let e : k * 1 ≡ k = omega arith in
          let inside = claim_inside (length json) size threads fits k h in
          let whole : k * size % u64_mod ≡ k * size = mod-eq_of_lt (omega (arith, fits.sum)) in
          rw (e, whole) (ground arith)

      stops_at :
          (k : ℕ) → n ≤ k → k ≤ n + threads → leb (length json) (k * 1 * size % u64_mod) ≡ true
      unfolding n
      stops_at k h few =
          let e : k * 1 ≡ k = omega arith in
          let outside = claim_outside (length json) size threads fits k h in
          let le = mul-le-mul_right k (n + threads) size few in
          let whole : k * size % u64_mod ≡ k * size = mod-eq_of_lt (omega (arith, fits.room)) in
          rw (e, whole) (ground arith)

      job_Ends : Ends (parse_job iterate_many extract json size format static) n threads
      unfolding n
      job_Ends = record { goes = λ k h. goes_at k h; stops = λ k h few. stops_at k h few }

      small_room : (n + threads) * 1 < u64_mod
      unfolding n
      small_room =
          let m = mul-le-mul_right 1 size (n + threads) fits.size_pos in grind (arith, fits.room)

      counter :
          (g : Shard T → ℕ) (c : ℕ → ℕ) (sched : List ℕ)
          → Counts (parse_job iterate_many extract json size format static) g c
          → g no_shard ≡ 0
          → 0 < threads
          → let ws =
              (run
                (parse_job iterate_many extract json size format static)
                sched
                (spawn no_shard n threads)).workers in
            all_done ws ≡ true → total (λ w. g w.shard) ws % u64_mod ≡ range c 0 n % u64_mod
      unfolding n
      counter g c sched counts z some_threads d =
          let job = parse_job iterate_many extract json size format static in
          let unit : (λ (j : ℕ). c (j * 1)) ≡ c =
            fun_ext (λ j. let e : j * 1 ≡ j = omega arith in ap c e) in
          let whole = ap (λ f. range f 0 n % u64_mod) unit in
          elim (Bool-cases static) [
            | inl fixed ↦
                static_total job g c n threads fixed counts threads job_Ends
                  (omega (arith, small_room)) some_threads fits.small no_shard sched z d
                ∙ whole
            | inr free ↦
                dynamic_total job g c n threads free counts job_Ends no_shard n threads z small_room
                  (omega arith) sched some_threads d
                ∙ whole
          ]

pub worker_count-pos : (hw : ℕ) (have : Bool) (opt : Options) → 0 < worker_count hw have opt
unfolding worker_count
worker_count-pos hw have opt = ground arith

module _ {T : Type 0} where
  collect-shards :
      (g : T → ℕ) (ws : List (Worker (Shard T))) (out : Result T)
      → sum_of (sum_of g) (collect ws out).shards
        ≡ sum_of (sum_of g) out.shards + total (λ w. sum_of g w.shard.values) ws
  unfolding collect total
  collect-shards g [] out = omega arith
  collect-shards g (w ∷ ws) out =
      let next : Result T = record {
        shards = out.shards ++ w.shard.values ∷ [];
        errors = (out.errors + w.shard.errors) % u64_mod;
        first_error = if out.first_error == 0 then w.shard.first else out.first_error;
      } in
      let rest = collect-shards g ws next in
      let here = sum_of-append (sum_of g) out.shards (w.shard.values ∷ []) in
      let one : sum_of (sum_of g) (w.shard.values ∷ []) ≡ sum_of g w.shard.values =
        unfold sum_of in omega arith in
      omega arith

  collect-errors :
      (ws : List (Worker (Shard T))) (out : Result T)
      → out.errors < u64_mod
      → (collect ws out).errors ≡ (out.errors + total (λ w. w.shard.errors) ws) % u64_mod
  unfolding collect total
  collect-errors [] out small = omega arith
  collect-errors (w ∷ ws) out small =
      let next : Result T = record {
        shards = out.shards ++ w.shard.values ∷ [];
        errors = (out.errors + w.shard.errors) % u64_mod;
        first_error = if out.first_error == 0 then w.shard.first else out.first_error;
      } in
      let rest = collect-errors ws next (omega arith) in omega arith

module _ {Doc T : Type 0} (iterate_many : Bytes → ℕ → StreamFormat → ℕ × List Doc)
    (extract : Doc → ℕ × T) where
  -- Whatever the interleaving and the assignment of slices, a run of `parse_many` whose threads
  -- have all ended returns the values and the errors of every slice, once each: any count of
  -- values over the shards, and the number of errors, are those of the slices modulo `2 ^ 64`,
  -- if the sums of the loop fit in 64 bits.
  pub parse_many-slices :
      (hw : ℕ) (have : Bool) (json : Bytes) (opt : Options) (sched : List ℕ) (g : T → ℕ)
      → Fits (length json) (slice_size opt.slice_bytes) (worker_count hw have opt)
      → all_done (parse_workers iterate_many extract hw have json opt sched) ≡ true
      → let out = parse_many iterate_many extract hw have json opt sched in
        let size = slice_size opt.slice_bytes in
        let slice = λ (i : ℕ). slice_at json (delimiter_for opt.format) size i in
        let n = slice_count (length json) size in
        (sum_of (sum_of g) out.shards % u64_mod
          ≡ range (λ i. sum_of g (piece_values iterate_many extract opt.format (slice i))) 0 n
            % u64_mod)
        × (out.errors
            ≡ range (λ i. piece_errors iterate_many extract opt.format (slice i)) 0 n % u64_mod)
  unfolding parse_many parse_workers n
  parse_many-slices hw have json opt sched g fits d =
      let size = slice_size opt.slice_bytes in
      let ws = parse_workers iterate_many extract hw have json opt sched in
      let empty : Result T = record { shards = []; errors = 0; first_error = 0 } in
      let some_threads = worker_count-pos hw have opt in
      let values =
        counter iterate_many extract json size opt.format opt.static_partition
          (worker_count hw have opt) fits (λ s. sum_of g s.values) _ sched
          (values-Counts iterate_many extract json size opt.format g opt.static_partition)
          (unfold sum_of in refl) some_threads d in
      let errors =
        counter iterate_many extract json size opt.format opt.static_partition
          (worker_count hw have opt) fits (λ s. s.errors) _ sched
          (errors-Counts iterate_many extract json size opt.format opt.static_partition) refl
          some_threads d in
      let all : sum_of (sum_of g) (collect ws empty).shards
          ≡ total (λ w. sum_of g w.shard.values) ws =
        collect-shards g ws empty ∙ unfold sum_of in omega arith in
      let noted : (collect ws empty).errors ≡ total (λ w. w.shard.errors) ws % u64_mod =
        collect-errors ws empty (omega arith) ∙ omega arith in
      (ap (λ t. t % u64_mod) all ∙ values, noted ∙ errors)
