-- ===== src/Driver/Threads.antt =====
-- src/main.cpp: the thread counts where no list is given.
use jsonstreambench.Prelude.{
  ℕ, zero, suc, ◌+◌, ◌*◌, ◌≤◌, ◌<◌, ◌≡◌, refl, true, false, List, [], ◌∷◌, ◌++◌, arith,
  if◌then◌else◌, leb, ◌==◌, Bool-cases, inl, inr,
}
use jsonstreambench.Driver.{doublings, last_or, thread_counts}

-- From `t` on, each count is larger than the one before and at most twice as large, and `hw` is the
-- last.
abbrev pub IsSweep : ℕ → ℕ → List ℕ → Type 0
IsSweep t hw [] = t ≡ hw
IsSweep t hw (u ∷ us) = (t < u) × (u ≤ t * 2) × IsSweep u hw us

-- The list that the loop leaves, ended by `hw` where it is missing.
abbrev ended : ℕ → ℕ → List ℕ → List ℕ
ended t hw ts = if last_or ts t == hw then ts else ts ++ hw ∷ []

rest-IsSweep :
    (fuel t hw : ℕ)
    → 0 < t
    → t ≤ hw
    → hw < t * 2 + fuel
    → IsSweep t hw (ended t hw (doublings fuel (t * 2) hw))
unfolding doublings last_or
rest-IsSweep zero t hw pos le small = elim (Bool-cases (t == hw)) [
  | inl last ↦ rw last (ground arith)
  | inr more ↦ rw more (ground arith, omega arith, refl)
]
rest-IsSweep (suc fuel) t hw pos le small = elim (Bool-cases (leb (t * 2) hw)) [
  | inr over ↦ rw over (elim (Bool-cases (t == hw)) [
    | inl last ↦ rw last (ground arith)
    | inr more ↦ rw more (ground arith, ground arith, refl)
  ])
  | inl on ↦ rw on (
      ends (t * 2) (omega arith) (omega arith) (doublings fuel (t * 2 * 2) hw)
        (rest-IsSweep fuel (t * 2) hw (omega arith) (ground arith) (omega arith)))
]
  where
    ends :
        (u : ℕ)
        → t < u
        → u ≤ t * 2
        → (us : List ℕ) → IsSweep u hw (ended u hw us)
        → IsSweep t hw (ended t hw (u ∷ us))
    ends u more few us h = elim (Bool-cases (last_or us u == hw)) [
      | inl last ↦ rw last (more, few, rw last at h)
      | inr short ↦ rw short (more, few, rw short at h)
    ]

-- The default thread counts begin with 1 and end with the number of processors, or with 1 if it
-- is not known; each is larger than the one before and at most twice as large.
pub thread_counts-IsSweep :
    (hw : ℕ)
    → (ts : List ℕ) × (thread_counts hw ≡ 1 ∷ ts) × IsSweep 1 (if hw == 0 then 1 else hw) ts
unfolding thread_counts
thread_counts-IsSweep zero = unfold doublings last_or in ([], refl, refl)
thread_counts-IsSweep (suc k) =
    let some_hw : (suc k == 0) ≡ false = ground arith in
    let starts : leb 1 (suc k) ≡ true = ground arith in
    let rest = doublings k 2 (suc k) in
    let first : doublings (suc k) 1 (suc k) ≡ 1 ∷ rest = unfold doublings in rw starts refl in
    let sweep = rest-IsSweep k 1 (suc k) (omega arith) (omega arith) (omega arith) in
    rw (some_hw, first)
      (elim (Bool-cases (last_or rest 1 == suc k)) [
        | inl last ↦ unfold last_or in rw last (rest, refl, rw last at sweep)
        | inr short ↦ unfold last_or in rw short (rest ++ suc k ∷ [], refl, rw short at sweep)
      ])
