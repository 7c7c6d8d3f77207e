-- ===== src/Driver/Exit.antt =====
-- src/main.cpp: what the exit status of a verification says.
use jsonstreambench.Prelude.{
  ◌*◌, ◌^◌, ◌≤◌, ◌≡◌, ◌↔◌, refl, Bool, true, false, List, [], ◌∷◌, Bytes, codes, arith,
  if◌then◌else◌, length, Bool-cases, inl, inr,
}
use jsonstreambench.Extraction.{Extraction}
use jsonstreambench.Sliced.{slice_size, thread_count}
use jsonstreambench.Sliced.Pieces.{Fits}
use jsonstreambench.DomEngine.{Library}
use jsonstreambench.DomEngine.Dispatch.{Joined, run_parallel-run_serial}
use jsonstreambench.Pison
use jsonstreambench.Simdjson
use jsonstreambench.Driver.{
  Setup, agrees, pison_run, simdjson_run, dom_serial, dom_parallel, skipped, libraries_agree,
  dom_libraries, agreement, wants, verdict_of, verdict, exits,
}

-- One count and one hash.
abbrev pub Agree : Extraction → Extraction → Type 0
Agree a b = (a.matches ≡ b.matches) × (a.sum ≡ b.sum)

-- The serial run of every library that is not skipped.
abbrev pub AllAgree : Setup → List Library → Type 0
AllAgree s [] = Unit
AllAgree s (lib ∷ libs) =
    (skipped s lib ≡ false → Agree (dom_serial s lib) (simdjson_run s Simdjson.decode))
    × AllAgree s libs

-- Pison and simdjson agree on the query and on what they decode, and every library agrees with them.
pub record EnginesAgree (s : Setup) : Type 0 where
  pub query : Agree (pison_run s Pison.query) (simdjson_run s Simdjson.query)
  pub decode : Agree (pison_run s Pison.decode) (simdjson_run s Simdjson.decode)
  pub libraries : AllAgree s dom_libraries

-- The threads of every parallel run end, and the sums of the slicing loop fit.
pub record Runs (s : Setup) : Type 0 where
  pub within : s.bytes ≤ length s.data_
  pub fits : Fits s.bytes (slice_size (256 * 2 ^ 10)) (thread_count 8)
  pub joined :
      (lib : Library)
      → Joined s.build lib s.data_ s.bytes s.query 8 (256 * 2 ^ 10) false (s.schedule lib)

pub agrees-Agree : (a b : Extraction) → agrees a b ≡ true → Agree a b
agrees-Agree a b h = (ground arith, ground arith)

Agree-agrees : (a b : Extraction) → Agree a b → agrees a b ≡ true
Agree-agrees a b h = ground arith

module _ (s : Setup) (runs : Runs s) where
  parallel_serial : (lib : Library) → dom_parallel s lib ≡ dom_serial s lib
  parallel_serial lib =
      run_parallel-run_serial s.build lib s.data_ s.bytes s.query 8 (256 * 2 ^ 10) false
        (s.schedule lib) runs.within runs.fits (runs.joined lib)

  libraries-AllAgree :
      (libs : List Library)
      → libraries_agree s (simdjson_run s Simdjson.decode) libs ≡ true
      → AllAgree s libs
  unfolding libraries_agree
  libraries-AllAgree [] h = tt
  libraries-AllAgree (lib ∷ libs) h = (
    λ used. agrees-Agree (dom_serial s lib) (simdjson_run s Simdjson.decode) (ground arith),
    libraries-AllAgree libs (ground arith),
  )

  AllAgree-libraries :
      (libs : List Library)
      → AllAgree s libs
      → libraries_agree s (simdjson_run s Simdjson.decode) libs ≡ true
  unfolding libraries_agree
  AllAgree-libraries [] h = refl
  AllAgree-libraries (lib ∷ libs) (one, rest) = elim (Bool-cases (skipped s lib)) [
    | inl unused ↦ rw (unused, AllAgree-libraries libs rest) refl
    | inr used ↦
        let same = Agree-agrees (dom_serial s lib) (simdjson_run s Simdjson.decode) (one used) in
        rw (used, parallel_serial lib, same, AllAgree-libraries libs rest) refl
  ]

  abbrev queries : Extraction × Extraction
  queries = (pison_run s Pison.query, simdjson_run s Simdjson.query)

  abbrev decodes : Extraction × Extraction
  decodes = (pison_run s Pison.decode, simdjson_run s Simdjson.decode)

  agreement-EnginesAgree : agreement s ≡ true → EnginesAgree s
  unfolding agreement
  agreement-EnginesAgree h = record {
    query = agrees-Agree queries.0 queries.1 (ground arith);
    decode = agrees-Agree decodes.0 decodes.1 (ground arith);
    libraries = libraries-AllAgree dom_libraries (ground arith);
  }

  EnginesAgree-agreement : EnginesAgree s → agreement s ≡ true
  unfolding agreement
  EnginesAgree-agreement e =
      rw
        (
          Agree-agrees queries.0 queries.1 e.query,
          Agree-agrees decodes.0 decodes.1 e.decode,
          AllAgree-libraries dom_libraries e.libraries,
        )
        refl

exits_iff : (agree : Bool) → (exits (if agree then 0 else 2) ≡ exits 0) ↔ (agree ≡ true)
exits_iff true = (λ h. refl, λ h. refl)
exits_iff false = (λ h. absurd (ground arith), λ h. absurd (ground arith))

-- With the verify section wanted and nothing to dump, and if the sums of the slicing loop fit and
-- the threads of the parallel runs end, --verify exits with 0 exactly if Pison and simdjson agree
-- in count and hash on the query and on what they decode, and the serial run of every library
-- that is not skipped agrees with what simdjson decodes.
pub verdict-EnginesAgree :
    (s : Setup) (sections : Bytes)
    → Runs s
    → wants sections (codes "verify") ≡ true
    → (verdict s sections 0 true ≡ exits 0) ↔ EnginesAgree s
unfolding verdict verdict_of
verdict-EnginesAgree s sections runs wanted =
    let (to, from) = exits_iff (agreement s) in
    rw wanted
      (λ h. agreement-EnginesAgree s runs (to h), λ e. from (EnginesAgree-agreement s runs e))
