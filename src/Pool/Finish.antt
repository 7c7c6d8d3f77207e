-- ===== src/Pool/Finish.antt =====
-- Whole runs of a pool with dynamic claims: what the joined shards hold, and how long a run takes.
use jsonstreambench.Prelude.{
  ℕ, zero, suc, ◌+◌, ◌-◌, ◌*◌, ◌%◌, ◌≤◌, ◌<◌, ◌≡◌, refl, ap, ◌∙◌, sym, true, false, List, [], ◌∷◌,
  inl, inr, none, some, arith, get_elem?, length, length-set, u64_mod, Option-cases,
}
use jsonstreambench.Pool.{Worker, Pool, Job, advance, step, run, all_done, spawn, spawn_from}
use jsonstreambench.Pool.Total.{total, range}
use jsonstreambench.Pool.Dynamic.{
  finished, pending, load, Counts, Ends, Inv, left, advance-Goes, finished_le,
}

-- Steps that were taken by threads inside their loops.
unfoldable pub busy_steps {ℓ} : {Shard : Type ℓ} → Job Shard → List ℕ → Pool Shard → ℕ
busy_steps job [] p = 0
busy_steps job (i ∷ is) p =
    let b : ℕ = elim (get_elem? p.workers i) [ none ↦ 0 | some w ↦ 1 - finished w.pc ] in
    b + busy_steps job is (step job i p)

length-step {ℓ} :
    {Shard : Type ℓ} (job : Job Shard) (i : ℕ) (p : Pool Shard)
    → length (step job i p).workers ≡ length p.workers
unfolding step
length-step job i p = elim (Option-cases (get_elem? p.workers i)) [
  | inl missing ↦ rw (missing, step)
  | inr (w, is) ↦ rw (is, step) (length-set p.workers i (advance job p.cursor w w.pc).1)
]

pub length-run {ℓ} :
    {Shard : Type ℓ} (job : Job Shard) (is : List ℕ) (p : Pool Shard)
    → length (run job is p).workers ≡ length p.workers
unfolding run
length-run job [] p = refl
length-run job (i ∷ is) p = length-run job is (step job i p) ∙ length-step job i p

module _ {ℓ} {Shard : Type ℓ} (job : Job Shard) (g : Shard → ℕ) (c : ℕ → ℕ) (n : ℕ) where
  -- What a schedule leads to.
  record Leads (m : ℕ) (p q : Pool Shard) (busy : ℕ) : Type 0 where
    m' : ℕ
    inv : Inv job g c n m' q
    falls : left job g c n m' q + busy ≤ left job g c n m p

  module _ (spare : ℕ) (dynamic : job.static ≡ false) (counts : Counts job g c)
      (ends : Ends job n spare) where
    step-Leads :
        (m i : ℕ) (p : Pool Shard)
        → length p.workers ≤ spare
        → Inv job g c n m p
        → Leads m p
            (step job i p)
            (elim (get_elem? p.workers i) [ none ↦ 0 | some w ↦ 1 - finished w.pc ])
    unfolding step
    step-Leads m i p few inv = elim (Option-cases (get_elem? p.workers i)) [
      | inl missing ↦ rw (missing, step) (record { m' = m; inv = inv; falls = omega arith })
      | inr (w, is) ↦
          rw (is, step)
            (let r =
                advance-Goes job g c n spare dynamic counts ends m p inv i w is w.pc few refl in
              record { m' = r.m'; inv = r.inv; falls = omega (arith, r.falls, finished_le w.pc) })
    ]

    run-Leads :
        (sched : List ℕ) (m : ℕ) (p : Pool Shard)
        → length p.workers ≤ spare
        → Inv job g c n m p
        → Leads m p (run job sched p) (busy_steps job sched p)
    unfolding run busy_steps
    run-Leads [] m p few inv = record { m' = m; inv = inv; falls = omega arith }
    run-Leads (i ∷ is) m p few inv =
        let first = step-Leads m i p few inv in
        let rest =
          run-Leads is first.m' (step job i p) (omega (arith, length-step job i p)) first.inv in
        record { m' = rest.m'; inv = rest.inv; falls = omega (arith, first.falls, rest.falls) }

    all_done-counts :
        (ws : List (Worker Shard))
        → all_done ws ≡ true
        → (total (λ w. finished w.pc) ws ≡ length ws)
          × (total (λ w. g w.shard + pending c w.pc) ws ≡ total (λ w. g w.shard) ws)
    unfolding all_done total
    all_done-counts [] h = (refl, refl)
    all_done-counts (w ∷ ws) h = ground (arith, all_done-counts ws)

    spawn_from-counts : (empty : Shard) (slices workers w k : ℕ) → g empty ≡ 0 → record {
      len : length (spawn_from empty slices workers w k) ≡ k;
      fin : total (λ w. finished w.pc) (spawn_from empty slices workers w k) ≡ 0;
      sum : total (λ w. g w.shard + pending c w.pc) (spawn_from empty slices workers w k) ≡ 0;
      work : total (λ w. load w.pc) (spawn_from empty slices workers w k) ≡ k;
    }
    unfolding spawn_from total
    spawn_from-counts empty slices workers w zero z = record {
      len = refl;
      fin = refl;
      sum = refl;
      work = refl;
    }
    spawn_from-counts empty slices workers w (suc k) z =
        let r = spawn_from-counts empty slices workers (w + 1) k z in
        record {
          len = omega (arith, r.len);
          fin = omega (arith, r.fin);
          sum = omega (arith, r.sum, z);
          work = omega (arith, r.work);
        }

    module _ (empty : Shard) (slices workers : ℕ) (zero_empty : g empty ≡ 0)
        (room : (n + workers) * job.unit < u64_mod) (few : workers ≤ spare) where
      spawn-few : length (spawn empty slices workers).workers ≤ spare
      unfolding spawn
      spawn-few = omega (arith, (spawn_from-counts empty slices workers 0 workers zero_empty).len)

      spawn-Inv : Inv job g c n 0 (spawn empty slices workers)
      unfolding spawn range
      spawn-Inv =
          let r = spawn_from-counts empty slices workers 0 workers zero_empty in
          record {
            at = omega (arith, ap (λ t. (0 + t) * job.unit) r.fin);
            within = omega arith;
            late = inl r.fin;
            room = rw r.len room;
            sums = ap (λ t. t % u64_mod) r.sum;
          }

      -- Behind an interleaving of dynamic claims in which all threads end, a counter of the
      -- shards holds, modulo `2 ^ 64`, the claims below the end, each once.
      pub dynamic_total :
          (sched : List ℕ)
          → 0 < workers
          → all_done (run job sched (spawn empty slices workers)).workers ≡ true
          → total (λ w. g w.shard) (run job sched (spawn empty slices workers)).workers % u64_mod
            ≡ range (λ j. c (j * job.unit)) 0 n % u64_mod
      dynamic_total sched some_workers finish =
          let r = run-Leads sched 0 (spawn empty slices workers) spawn-few spawn-Inv in
          let (fin, sum) =
            all_done-counts (run job sched (spawn empty slices workers)).workers finish in
          let len : length (run job sched (spawn empty slices workers)).workers ≡ workers =
            length-run job sched (spawn empty slices workers)
            ∙ unfold spawn in (spawn_from-counts empty slices workers 0 workers zero_empty).len in
          let all : r.m' ≡ n = elim r.inv.late [
            | inl z ↦ absurd (omega (arith, fin, len))
            | inr e ↦ e
          ] in
          sym (ap (λ t. t % u64_mod) sum)
          ∙ r.inv.sums
          ∙ ap (λ m. range (λ j. c (j * job.unit)) 0 m % u64_mod) all

      -- No interleaving of dynamic claims holds more than two steps of a running thread for
      -- each claim and one for each thread.
      pub dynamic_busy_steps :
          (sched : List ℕ) → busy_steps job sched (spawn empty slices workers) ≤ 2 * n + workers
      unfolding spawn
      dynamic_busy_steps sched =
          let r = run-Leads sched 0 (spawn empty slices workers) spawn-few spawn-Inv in
          omega (arith, r.falls, (spawn_from-counts empty slices workers 0 workers zero_empty).work)
