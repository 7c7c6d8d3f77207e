-- ===== src/Pool/Dynamic.antt =====
-- Dynamic claims: the invariant of the counter and the threads, step by step.
use native.Mathlib.Decide.{dec_lt}
use native.Mathlib.Nat.{mod-eq_of_lt}
use jsonstreambench.Prelude.{
  ℕ, suc, ◌+◌, ◌-◌, ◌*◌, ◌%◌, ◌≤◌, ◌<◌, ◌≡◌, ap, ◌∙◌, true, false, List, [], ◌∷◌, ◌⊎◌, inl, inr,
  some, arith, get_elem?, set, length, length-set, u64_mod,
}
use jsonstreambench.Pool.{Pc, ready, holding, done, Worker, Pool, Job, settle, claim, advance}
use jsonstreambench.Pool.Total.{total, total-set, range, range_snoc}

-- The pool in which thread `i` has stepped.
abbrev pub after {ℓ} : {Shard : Type ℓ} → Pool Shard → ℕ → ℕ × Worker Shard → Pool Shard
after p i (cursor, w') = record { cursor = cursor; workers = set p.workers i w' }

-- 1 for a thread behind its `break`.
abbrev pub finished : Pc → ℕ
finished done = 1
finished _ = 0

-- What a thread's claim will still add.
abbrev pub pending : (ℕ → ℕ) → Pc → ℕ
pending c (holding token) = c token
pending c _ = 0

-- A counter `g` of a shard, to which a claim adds `c` of its token.
pub record Counts {ℓ} {Shard : Type ℓ} (job : Job Shard) (g : Shard → ℕ) (c : ℕ → ℕ) : Type ℓ where
  pub adds : (token : ℕ) (s : Shard) → g (job.work token s) % u64_mod ≡ (g s + c token) % u64_mod

-- The tokens of the first `n` claims pass the test that ends the loop; those of the claims behind them,
-- `spare` of them, do not.
pub record Ends {ℓ} {Shard : Type ℓ} (job : Job Shard) (n spare : ℕ) : Type ℓ where
  pub goes : (k : ℕ) → k < n → job.stop (k * job.unit) ≡ false
  pub stops : (k : ℕ) → n ≤ k → k ≤ n + spare → job.stop (k * job.unit) ≡ true

-- Steps that a thread has left for what it holds.
abbrev pub load : Pc → ℕ
load ready = 1
load (holding token) = 2
load done = 0

pub finished_le : (pc : Pc) → finished pc ≤ 1
finished_le ready = omega arith
finished_le done = omega arith
finished_le _ = omega arith

total-le-length {ℓ} :
    {Shard : Type ℓ} (ws : List (Worker Shard)) → total (λ w. finished w.pc) ws ≤ length ws
unfolding total
total-le-length [] = omega arith
total-le-length (w ∷ ws) = omega (arith, finished_le w.pc, total-le-length ws)

pub mul-le-mul_right : (a b u : ℕ) → a ≤ b → a * u ≤ b * u
mul-le-mul_right a b u h = grind arith

le_trans_lt : {a b d : ℕ} → a ≤ b → b < d → a < d
le_trans_lt p q = omega arith

module _ {ℓ} {Shard : Type ℓ} (job : Job Shard) (g : Shard → ℕ) (c : ℕ → ℕ) (n : ℕ) where
  abbrev dones : List (Worker Shard) → ℕ
  dones = total (λ w. finished w.pc)

  abbrev counted : List (Worker Shard) → ℕ
  counted = total (λ w. g w.shard + pending c w.pc)

  abbrev loads : List (Worker Shard) → ℕ
  loads = total (λ w. load w.pc)

  -- The first `m` claims are in a shard or pending; each claim behind them ended a thread.
  pub record Inv (m : ℕ) (p : Pool Shard) : Type 0 where
    pub at : p.cursor ≡ (m + dones p.workers) * job.unit
    pub within : m ≤ n
    pub late : (dones p.workers ≡ 0) ⊎ (m ≡ n)
    pub room : (n + length p.workers) * job.unit < u64_mod
    pub sums : counted p.workers % u64_mod ≡ range (λ j. c (j * job.unit)) 0 m % u64_mod

  -- The steps that are left.
  abbrev pub left : ℕ → Pool Shard → ℕ
  left m p = 2 * (n - m) + loads p.workers

  -- A step from `m` claims to `m'`, by a thread that was at `pc`.
  pub record Goes (m : ℕ) (p p' : Pool Shard) (pc : Pc) : Type 0 where
    pub m' : ℕ
    pub inv : Inv m' p'
    pub falls : left m' p' + 1 ≤ left m p + finished pc

  module _ (spare : ℕ) (dynamic : job.static ≡ false) (counts : Counts job g c)
      (ends : Ends job n spare) (m : ℕ) (p : Pool Shard) (inv : Inv m p) (i : ℕ) (w : Worker Shard)
      (is : get_elem? p.workers i ≡ some w) where
    -- A thread that has not finished leaves room below the number of threads.
    some_left : finished w.pc ≡ 0 → dones p.workers + 1 ≤ length p.workers
    some_left h =
        let w' : Worker Shard = record w { pc = done } in
        omega (
          arith,
          total-set (λ (w : Worker Shard). finished w.pc) p.workers i w w' is,
          total-le-length (set p.workers i w'),
          length-set p.workers i w',
        )

    -- How the totals change when thread `i` becomes `w'`.
    record Changes (w' : Worker Shard) : Type 0 where
      done_by : dones (set p.workers i w') + finished w.pc ≡ dones p.workers + finished w'.pc
      count_by :
          counted (set p.workers i w') + (g w.shard + pending c w.pc)
          ≡ counted p.workers + (g w'.shard + pending c w'.pc)
      load_by : loads (set p.workers i w') + load w.pc ≡ loads p.workers + load w'.pc
      same : length (set p.workers i w') ≡ length p.workers

    changes : (w' : Worker Shard) → Changes w'
    changes w' = record {
      done_by = total-set (λ (w : Worker Shard). finished w.pc) p.workers i w w' is;
      count_by = total-set (λ (w : Worker Shard). g w.shard + pending c w.pc) p.workers i w w' is;
      load_by = total-set (λ (w : Worker Shard). load w.pc) p.workers i w w' is;
      same = length-set p.workers i w';
    }

    room_for : (k : ℕ) → k ≤ n + length p.workers → k * job.unit < u64_mod
    room_for k h =
        let r : (n + length p.workers) * job.unit < u64_mod = inv.room in
        le_trans_lt (mul-le-mul_right k (n + length p.workers) job.unit h) r

    claim_goes :
        job.stop p.cursor ≡ false
        → claim job p.cursor w
          ≡ ((p.cursor + job.unit) % u64_mod, record w { pc = holding p.cursor })
    unfolding claim settle
    claim_goes h = rw (dynamic, h)

    claim_stops :
        job.stop p.cursor ≡ true
        → claim job p.cursor w ≡ ((p.cursor + job.unit) % u64_mod, record w { pc = done })
    unfolding claim settle
    claim_stops h = rw (dynamic, h)

    -- While claims are left, no thread has finished.
    none_done : m < n → dones p.workers ≡ 0
    none_done h = elim inv.late [ inl z ↦ z | inr z ↦ absurd (omega arith) ]

    at_start : m < n → p.cursor ≡ m * job.unit
    at_start h = inv.at ∙ ap (λ t. t * job.unit) (omega (arith, none_done h))

    -- The counter behind a claim does not wrap.
    next_cursor :
        finished w.pc ≡ 0 → (p.cursor + job.unit) % u64_mod ≡ (m + dones p.workers + 1) * job.unit
    next_cursor h =
        let k = m + dones p.workers in
        let e : p.cursor + job.unit ≡ (k + 1) * job.unit = omega (arith, inv.at) in
        rw e (mod-eq_of_lt (room_for (k + 1) (omega (arith, some_left h, inv.within))))

    claimed : ℕ → ℕ
    claimed m = range (λ j. c (j * job.unit)) 0 m

    claimed_next : m < n → claimed (m + 1) ≡ claimed m + c p.cursor
    unfolding claimed
    claimed_next h =
        let e : m + 1 ≡ suc m = omega arith in
        let at : (0 + m) * job.unit ≡ p.cursor = omega (arith, at_start h) in
        ap claimed e ∙ range_snoc (λ j. c (j * job.unit)) 0 m ∙ ap (λ t. claimed m + c t) at

    -- A claim below the end.
    take-Goes :
        m < n
        → w.pc ≡ ready
        → Goes m p
            (after p i ((p.cursor + job.unit) % u64_mod, record w { pc = holding p.cursor }))
            ready
    unfolding claimed
    take-Goes more e =
        let ch = changes (record w { pc = holding p.cursor }) in
        let unfinished : finished w.pc ≡ 0 = ap finished e in
        record {
          m' = m + 1;
          inv = record {
            at = next_cursor unfinished ∙ ap (λ t. t * job.unit) (omega (arith, ch.done_by));
            within = omega arith;
            late = inl (omega (arith, ch.done_by, none_done more));
            room = rw ch.same inv.room;
            sums = omega (arith, ap (pending c) e, ch.count_by, inv.sums, claimed_next more);
          };
          falls = omega (arith, ap load e, ch.load_by);
        }

    -- A claim behind the end.
    stop-Goes :
        m ≡ n
        → w.pc ≡ ready
        → Goes m p (after p i ((p.cursor + job.unit) % u64_mod, record w { pc = done })) ready
    stop-Goes end e =
        let ch = changes (record w { pc = done }) in
        let unfinished : finished w.pc ≡ 0 = ap finished e in
        record {
          m' = m;
          inv = record {
            at = next_cursor unfinished ∙ ap (λ t. t * job.unit) (omega (arith, ch.done_by));
            within = inv.within;
            late = inr end;
            room = rw ch.same inv.room;
            sums = omega (arith, ap (pending c) e, ch.count_by, inv.sums);
          };
          falls = omega (arith, ap load e, ch.load_by);
        }

    pub advance-Goes :
        (pc : Pc)
        → length p.workers ≤ spare
        → w.pc ≡ pc
        → Goes m p (after p i (advance job p.cursor w pc)) pc
    unfolding advance
    advance-Goes ready few e = elim (dec_lt m n) [
      | yes more ↦
          rw (claim_goes (ap job.stop (at_start more) ∙ ends.goes m more)) (take-Goes more e)
      | no over ↦
          let end : m ≡ n = omega (arith, inv.within) in
          rw
            (claim_stops (
              ap job.stop inv.at
              ∙ ends.stops (m + dones p.workers) (omega arith)
                  (omega (arith, some_left (ap finished e)))))
            (stop-Goes end e)
    ]
    advance-Goes (holding token) few e =
        let w' : Worker Shard = record w { pc = ready; shard = job.work token w.shard } in
        let ch = changes w' in
        record {
          m' = m;
          inv = record {
            at = inv.at ∙ ap (λ t. (m + t) * job.unit) (ground (arith, ch.done_by));
            within = inv.within;
            late = ground (arith, inv.late, ch.done_by);
            room = rw ch.same inv.room;
            sums =
                omega (arith, ap (pending c) e, ch.count_by, counts.adds token w.shard, inv.sums);
          };
          falls = ground (arith, ch.load_by);
        }
    advance-Goes done few e =
        let ch = changes w in
        record {
          m' = m;
          inv = record {
            at = inv.at ∙ ap (λ t. (m + t) * job.unit) (omega (arith, ch.done_by));
            within = inv.within;
            late = ground (arith, inv.late, ch.done_by);
            room = rw ch.same inv.room;
            sums = omega (arith, ch.count_by, inv.sums);
          };
          falls = ground (arith, ch.load_by);
        }
