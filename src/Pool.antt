-- ===== src/Pool.antt =====
-- Worker threads that claim work from one atomic counter, or from a run of their own: the loop that
-- src/parallel_stream.h, src/dom_parallel.h and src/pison_engine.cpp start in every thread.
pub mod Total
pub mod Dynamic
pub mod Finish
pub mod Static
use jsonstreambench.Prelude.{
  ℕ, zero, suc, ◌+◌, ◌*◌, ◌/◌, ◌%◌, Bool, true, false, List, [], ◌∷◌, Option, none, some,
  if◌then◌else◌, leb, get_elem?, set, u64_mod,
}

-- Where a thread stands: at the head of its loop, with a claim that it has not worked off, or behind
-- its `break`.
pub data Pc : Type 0 where
  ready : Pc
  holding : (token : ℕ) → Pc
  done : Pc

-- A thread with its locals `next` and `last`, and the shard that only it writes.
pub record Worker {ℓ} (Shard : Type ℓ) : Type ℓ where
  pub next : ℕ
  pub last : ℕ
  pub pc : Pc
  pub shard : Shard

pub record Pool {ℓ} (Shard : Type ℓ) : Type ℓ where
  pub cursor : ℕ  -- std::atomic<size_t>
  pub workers : List (Worker Shard)

-- What the loop depends on: static or dynamic claims, what one claim adds to the counter, the test
-- that ends the loop, and the work behind a claim.
pub record Job {ℓ} (Shard : Type ℓ) : Type ℓ where
  pub static : Bool
  pub unit : ℕ
  pub stop : ℕ → Bool
  pub work : ℕ → Shard → Shard

module _ {ℓ} {Shard : Type ℓ} (job : Job Shard) where
  -- Behind a claim: the `break`, or the work that follows.
  unfoldable pub settle : ℕ → Pc
  settle token = if job.stop token then done else holding token

  -- A claim: the counter that it leaves and the thread behind it. `fetch_add` wraps.
  unfoldable pub claim : ℕ → Worker Shard → ℕ × Worker Shard
  unfolding settle
  claim cursor w =
      if job.static
      then (
        cursor,
        if leb w.last w.next
            then record w { pc = done }
            else record w { next = w.next + 1; pc = settle (w.next * job.unit % u64_mod) },
      )
      else ((cursor + job.unit) % u64_mod, record w { pc = settle cursor })

  -- One step of a thread.
  unfoldable pub advance : ℕ → Worker Shard → Pc → ℕ × Worker Shard
  advance cursor w ready = claim cursor w
  advance cursor w (holding token) =
      (cursor, record w { pc = ready; shard = job.work token w.shard })
  advance cursor w done = (cursor, w)

  -- The thread with an index takes a step; an index of no thread is skipped.
  unfoldable pub step : ℕ → Pool Shard → Pool Shard
  step i p = elim (get_elem? p.workers i) [
    | none ↦ p
    | some w ↦
        let (cursor, w') = advance p.cursor w w.pc in
        record { cursor = cursor; workers = set p.workers i w' }
  ]

  -- An interleaving: the threads that step, one after another.
  unfoldable pub run : List ℕ → Pool Shard → Pool Shard
  unfolding step advance claim
  run [] p = p
  run (i ∷ is) p = run is (step i p)

-- `size_t next = slices * w / workers` and `last = slices * (w + 1) / workers`, for the threads from
-- `w` on.
unfoldable pub spawn_from {ℓ} : {Shard : Type ℓ} → Shard → ℕ → ℕ → ℕ → ℕ → List (Worker Shard)
spawn_from empty slices workers w zero = []
spawn_from empty slices workers w (suc left) =
    record {
      next = slices * w % u64_mod / workers;
      last = slices * (w + 1) % u64_mod / workers;
      pc = ready;
      shard = empty;
    }
    ∷ spawn_from empty slices workers (w + 1) left

-- The pool before any thread has run.
unfoldable pub spawn {ℓ} : {Shard : Type ℓ} → Shard → ℕ → ℕ → Pool Shard
unfolding spawn_from
spawn empty slices workers = record {
  cursor = 0;
  workers = spawn_from empty slices workers 0 workers;
}

-- Every thread has left its loop: what the joins wait for.
unfoldable pub all_done {ℓ} : {Shard : Type ℓ} → List (Worker Shard) → Bool
all_done [] = true
all_done (w ∷ ws) = elim w.pc [ done ↦ all_done ws | _ ↦ false ]
