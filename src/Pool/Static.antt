-- ===== src/Pool/Static.antt =====
-- Static claims: the runs of claims that threads have of their own.
use mathlib.Core.Path.{subst}
use native.Mathlib.Nat.{mod-eq_of_lt, le-div_iff_mul-le, div-mul-le_self, zero-div, mul-div_cancel}
use jsonstreambench.Prelude.{
  ℕ, zero, suc, ◌+◌, ◌-◌, ◌*◌, ◌/◌, ◌%◌, ◌≤◌, ◌<◌, ◌≡◌, refl, ap, ◌∙◌, true, false, List, [], ◌∷◌,
  inl, inr, some, arith, leb, get_elem?, set, length, u64_mod, Option-cases, Bool-cases,
}
use jsonstreambench.Pool.{
  Pc, ready, holding, done, Worker, Pool, Job, settle, claim, advance, step, run, all_done, spawn,
  spawn_from,
}
use jsonstreambench.Pool.Total.{total, range, range_snoc, range_split}
use jsonstreambench.Pool.Dynamic.{finished, pending, Counts, Ends, mul-le-mul_right}
use jsonstreambench.Pool.Finish.{length-run}

le_lt : {a b d : ℕ} → a ≤ b → b < d → a < d
le_lt p q = omega arith

le_le : {a b d : ℕ} → a ≤ b → b ≤ d → a ≤ d
le_le p q = omega arith

all_done-cons {ℓ} :
    {Shard : Type ℓ} (w : Worker Shard) (ws : List (Worker Shard))
    → all_done (w ∷ ws) ≡ true
    → (w.pc ≡ done) × (all_done ws ≡ true)
unfolding all_done
all_done-cons w ws d = ground arith

length-spawn_from {ℓ} :
    {Shard : Type ℓ} (empty : Shard) (slices workers w k : ℕ)
    → length (spawn_from empty slices workers w k) ≡ k
unfolding spawn_from
length-spawn_from empty slices workers w zero = refl
length-spawn_from empty slices workers w (suc k) =
    ap suc (length-spawn_from empty slices workers (w + 1) k)

module _ {ℓ} {Shard : Type ℓ} (job : Job Shard) (g : Shard → ℕ) (c : ℕ → ℕ) (n : ℕ) where
  abbrev claimed : ℕ → ℕ → ℕ
  claimed = range (λ j. c (j * job.unit))

  -- A thread whose run is `[a, b)`: what it has claimed so far is in its shard or pending.
  record Own (a b : ℕ) (w : Worker Shard) : Type 0 where
    low : a ≤ w.next
    high : w.next ≤ b
    end : w.last ≡ b
    top : b ≤ n
    fin : finished w.pc ≡ 1 → w.next ≡ b
    sums : (g w.shard + pending c w.pc) % u64_mod ≡ claimed a (w.next - a) % u64_mod

  module _ (static : job.static ≡ true) (counts : Counts job g c) (spare : ℕ)
      (ends : Ends job n spare) (room : n * job.unit < u64_mod) (a b : ℕ) where
    below : (k : ℕ) → k < n → k * job.unit < u64_mod
    below k h = let m = mul-le-mul_right k n job.unit (omega arith) in omega arith

    takes :
        (cursor : ℕ) (w : Worker Shard)
        → leb w.last w.next ≡ false
        → w.next < n
        → claim job cursor w
          ≡ (cursor, record w { next = w.next + 1; pc = holding (w.next * job.unit) })
    unfolding claim settle
    takes cursor w more h =
        let small : w.next * job.unit % u64_mod ≡ w.next * job.unit =
          mod-eq_of_lt (below w.next h) in
        rw (static, more, small, ends.goes w.next h)

    claimed_next : (k : ℕ) → a ≤ k → claimed a (k + 1 - a) ≡ claimed a (k - a) + c (k * job.unit)
    claimed_next k h =
        let e : k + 1 - a ≡ suc (k - a) = omega arith in
        let at : a + (k - a) ≡ k = omega arith in
        ap (claimed a) e
        ∙ range_snoc (λ j. c (j * job.unit)) a (k - a)
        ∙ ap (λ t. claimed a (k - a) + c (t * job.unit)) at

    advance-Own :
        (cursor : ℕ) (w : Worker Shard) (pc : Pc)
        → w.pc ≡ pc
        → Own a b w
        → Own a b (advance job cursor w pc).1
    unfolding advance claim settle
    advance-Own cursor w done e own = own
    advance-Own cursor w (holding token) e own = record {
      low = own.low;
      high = own.high;
      end = own.end;
      top = own.top;
      fin = λ h. absurd (omega arith);
      sums = omega (arith, ap (pending c) e, counts.adds token w.shard, own.sums);
    }
    advance-Own cursor w ready e own = elim (Bool-cases (leb w.last w.next)) [
      | inl over ↦
          rw (static, over)
            (record {
              low = own.low;
              high = own.high;
              end = own.end;
              top = own.top;
              fin = λ h. ground (arith, own.high, own.end);
              sums = omega (arith, ap (pending c) e, own.sums);
            })
      | inr more ↦
          let before : w.next < b = ground (arith, own.end) in
          rw (takes cursor w more (omega (arith, own.top))) (record {
            low = omega (arith, own.low);
            high = omega arith;
            end = own.end;
            top = own.top;
            fin = λ h. absurd (omega arith);
            sums = omega (arith, ap (pending c) e, own.sums, claimed_next w.next own.low);
          })
    ]

  claimed_split :
      (a b d : ℕ) → a ≤ b → b ≤ d → claimed a (d - a) ≡ claimed a (b - a) + claimed b (d - b)
  claimed_split a b d h k =
      let e : d - a ≡ b - a + (d - b) = omega arith in
      let at : a + (b - a) ≡ b = omega arith in
      ap (claimed a) e
      ∙ range_split (λ j. c (j * job.unit)) a (b - a) (d - b)
      ∙ ap (λ t. claimed a (b - a) + claimed t (d - b)) at

  -- The claim at which the run of thread `i` begins, for `workers` threads.
  abbrev pub bound : ℕ → ℕ → ℕ
  bound workers i = n * i % u64_mod / workers

  module _ (workers : ℕ) where
    -- Every thread of a list has its run, the first of them that of thread `i`.
    OwnFrom : ℕ → List (Worker Shard) → Type 0
    OwnFrom i [] = Unit
    OwnFrom i (w ∷ ws) = Own (bound workers i) (bound workers (i + 1)) w × OwnFrom (i + 1) ws

    OwnFrom-set :
        (i j : ℕ) (ws : List (Worker Shard)) (w w' : Worker Shard)
        → get_elem? ws j ≡ some w
        → ((a b : ℕ) → Own a b w → Own a b w')
        → OwnFrom i ws
        → OwnFrom i (set ws j w')
    unfolding OwnFrom
    OwnFrom-set i j [] w w' is keep own = own
    OwnFrom-set i zero (v ∷ ws) w w' is keep (first, rest) =
        (keep _ _ (subst (Own _ _) (ground arith) first), rest)
    OwnFrom-set i (suc j) (v ∷ ws) w w' is keep (first, rest) =
        (first, OwnFrom-set (i + 1) j ws w w' is keep rest)

    module _ (static : job.static ≡ true) (counts : Counts job g c) (spare : ℕ)
        (ends : Ends job n spare) (room : n * job.unit < u64_mod) where
      step-OwnFrom :
          (i : ℕ) (p : Pool Shard) → OwnFrom 0 p.workers → OwnFrom 0 (step job i p).workers
      unfolding step
      step-OwnFrom i p own = elim (Option-cases (get_elem? p.workers i)) [
        | inl missing ↦ rw (missing, step) own
        | inr (w, is) ↦
            rw (is, step)
              (OwnFrom-set 0 i p.workers w (advance job p.cursor w w.pc).1 is
                (λ a b. advance-Own static counts spare ends room a b p.cursor w w.pc refl) own)
      ]

      run-OwnFrom :
          (is : List ℕ) (p : Pool Shard) → OwnFrom 0 p.workers → OwnFrom 0 (run job is p).workers
      unfolding run
      run-OwnFrom [] p own = own
      run-OwnFrom (i ∷ is) p own = run-OwnFrom is (step job i p) (step-OwnFrom i p own)

      module _ (some_workers : 0 < workers) (small : n * workers < u64_mod) where
        bound_small : (i : ℕ) → i ≤ workers → n * i % u64_mod ≡ n * i
        bound_small i h = mod-eq_of_lt (le_lt (grind arith) small)

        bound_mono : (i : ℕ) → i + 1 ≤ workers → bound workers i ≤ bound workers (i + 1)
        bound_mono i h =
            rw (bound_small i (omega arith), bound_small (i + 1) h)
              ((le-div_iff_mul-le some_workers).1
                (le_le (div-mul-le_self (n * i) workers) (omega arith)))

        bound_last : bound workers workers ≡ n
        bound_last = rw (bound_small workers (omega arith)) (mul-div_cancel n some_workers)

        bound_first : bound workers 0 ≡ 0
        bound_first =
            let e : n * 0 ≡ 0 = omega arith in
            rw (bound_small 0 (omega arith), e) (zero-div workers)

        bound-le_from : (k i : ℕ) → i + k ≡ workers → bound workers i ≤ n
        bound-le_from zero i e =
            let e' : i ≡ workers = omega arith in omega (arith, ap (bound workers) e', bound_last)
        bound-le_from (suc k) i e =
            omega (arith, bound_mono i (omega arith), bound-le_from k (i + 1) (omega arith))

        spawn_from-OwnFrom :
            (empty : Shard) (i k : ℕ)
            → g empty ≡ 0
            → i + k ≡ workers
            → OwnFrom i (spawn_from empty n workers i k)
        unfolding OwnFrom spawn_from range
        spawn_from-OwnFrom empty i zero z e = tt
        spawn_from-OwnFrom empty i (suc k) z e = (
          record {
            low = omega arith;
            high = bound_mono i (omega arith);
            end = refl;
            top = bound-le_from k (i + 1) (omega arith);
            fin = λ h. absurd (omega arith);
            sums =
                let e : bound workers i - bound workers i ≡ 0 = omega arith in
                rw e (omega (arith, z));
          },
          spawn_from-OwnFrom empty (i + 1) k z (omega arith),
        )

        joined :
            (ws : List (Worker Shard)) (i j : ℕ)
            → i + length ws ≡ j
            → j ≤ workers
            → all_done ws ≡ true
            → OwnFrom i ws
            → (bound workers i ≤ bound workers j)
              × (total (λ w. g w.shard) ws % u64_mod
                  ≡ claimed (bound workers i) (bound workers j - bound workers i) % u64_mod)
        unfolding OwnFrom all_done total range
        joined [] i j e h d own =
            let e' : i ≡ j = omega arith in
            let z : bound workers j - bound workers j ≡ 0 = omega arith in rw (e', z) (omega arith)
        joined (w ∷ ws) i j e h d (first, rest) =
            let (finish, others) = all_done-cons w ws d in
            let a = bound workers i in
            let b = bound workers (i + 1) in
            let (le, sums) = joined ws (i + 1) j (omega arith) h others rest in
            let mono : a ≤ b = bound_mono i (omega arith) in
            let next : w.next ≡ b = first.fin (ap finished finish) in
            (
              omega arith,
              omega (
                arith,
                ap (pending c) finish,
                first.sums,
                sums,
                ap (λ t. claimed a (t - a)) next,
                claimed_split a b (bound workers j) mono le,
              ),
            )

        -- Behind an interleaving of static claims in which all threads end, a counter of
        -- the shards holds, modulo `2 ^ 64`, the claims below the end, each once.
        pub static_total :
            (empty : Shard) (sched : List ℕ)
            → g empty ≡ 0
            → all_done (run job sched (spawn empty n workers)).workers ≡ true
            → total (λ w. g w.shard) (run job sched (spawn empty n workers)).workers % u64_mod
              ≡ claimed 0 n % u64_mod
        static_total empty sched z d =
            let p = spawn empty n workers in
            let len : length (run job sched p).workers ≡ workers =
              length-run job sched p
              ∙ unfold spawn in length-spawn_from empty n workers 0 workers in
            let own =
              run-OwnFrom sched p
                (unfold spawn in spawn_from-OwnFrom empty 0 workers z (omega arith)) in
            let (le, sums) =
              joined (run job sched p).workers 0 workers (omega arith) (omega arith) d own in
            sums
            ∙ ap (λ t. claimed t (bound workers workers - t) % u64_mod) bound_first
            ∙ ap (λ t. claimed 0 t % u64_mod) (omega (arith, bound_last))
