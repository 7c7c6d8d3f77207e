-- ===== src/Driver.antt =====
-- src/main.cpp: what the driver derives from its options and its input, and the verdict of the
-- verification.
pub mod Exit
pub mod Format
pub mod Options
pub mod Threads
use jsonstreambench.Prelude.{
  ℕ, zero, suc, ◌+◌, ◌*◌, ◌^◌, Bool, true, false, ◌&&◌, ◌||◌, not, List, [], ◌∷◌, ◌++◌, Option,
  none, some, Bytes, codes, if◌then◌else◌, ltb, leb, ◌==◌, u64_mod, ◌%◌, length, take, drop,
}
use jsonstreambench.Extraction.{Extraction}
use jsonstreambench.QueryId.{QueryId, bytes_eq, contains, query_levels}
use jsonstreambench.Loaders.{RecordTable}
use jsonstreambench.DomEngine
use jsonstreambench.DomEngine.{Library, yyjson, rapidjson, boost_json, nlohmann, Build, available}
use jsonstreambench.Pison
use jsonstreambench.Pison.Stream.{PisonApi, run_stream, run_single_record}
use jsonstreambench.Ondemand.{Api}
use jsonstreambench.Simdjson
use jsonstreambench.Simdjson.Runs
use jsonstreambench.Simdjson.Runs.{run_single_document}

-- `o.wants(s)` and `o.wants_engine(e)`, with the fields that they read.
unfoldable pub wants : Bytes → Bytes → Bool
wants sections s = contains sections s

unfoldable pub wants_engine : Bytes → Bytes → Bool
wants_engine only_engine e = bytes_eq only_engine [] || bytes_eq only_engine e

-- `levels > 0 ? levels : ...`; an `int` that is not above 0 is `none`.
unfoldable pub bitmap_levels : Option ℕ → QueryId → Bool → ℕ
bitmap_levels (some levels) q single_record = levels
bitmap_levels none q single_record = query_levels q + (if single_record then 1 else 0)

-- `s.find_last_of(c)`.
unfoldable pub find_last_of : Bytes → ℕ → Option ℕ
find_last_of [] c = none
find_last_of (d ∷ s) c = elim (find_last_of s c) [
  | some k ↦ some (suc k)
  | none ↦ if d == c then some 0 else none
]

-- `slash == npos ? path : path.substr(slash + 1)`.
unfoldable pub file_name : Bytes → Bytes
file_name path = elim (find_last_of path b'/') [ none ↦ path | some slash ↦ drop (slash + 1) path ]

unfoldable pub stem : Bytes → Bytes
stem path =
    let s = file_name path in elim (find_last_of s b'.') [ none ↦ s | some dot ↦ take dot s ]

-- `for (t = 1; t <= hw; t *= 2)`, with fuel.
unfoldable pub doublings : ℕ → ℕ → ℕ → List ℕ
doublings zero t hw = []
doublings (suc fuel) t hw =
    let rest = doublings fuel (t * 2) hw in if leb t hw then t ∷ rest else []

unfoldable pub last_or : List ℕ → ℕ → ℕ
last_or [] d = d
last_or (t ∷ ts) d = last_or ts t

-- The thread counts where no list is given; `hw` is `hardware_concurrency()`.
unfoldable pub thread_counts : ℕ → List ℕ
thread_counts hw =
    let n = if hw == 0 then 1 else hw in
    let ts = doublings n 1 n in if last_or ts 0 == n then ts else ts ++ n ∷ []

-- The batch of the serial runs, behind the longest document.
unfoldable pub serial_batch : ℕ → ℕ
serial_batch longest = if ltb (2 ^ 20) longest then (longest + 1) % u64_mod else 2 ^ 20

-- `a.matches == b.matches && a.sum == b.sum`.
abbrev pub agrees : Extraction → Extraction → Bool
agrees a b = a.matches == b.matches && a.sum == b.sum

abbrev pub dom_libraries : List Library
dom_libraries = yyjson ∷ rapidjson ∷ boost_json ∷ nlohmann ∷ []

-- What the verification works on: the libraries, the query, the input of `bytes` bytes with its
-- padding, and the text and the table of the fast loader.
pub record Setup : Type 1 where
  pub pison : PisonApi
  pub simdjson : Api
  pub build : Build
  pub have_newline_delimited : Bool
  pub query : QueryId
  pub levels : ℕ
  pub data_ : Bytes
  pub bytes : ℕ
  pub text : Bytes
  pub table : RecordTable
  pub batch : ℕ
  pub no_dom : Bool
  pub schedule : Library → List ℕ

module _ (s : Setup) where
  abbrev pub pison_run : Pison.Workload → Extraction
  pison_run w = run_stream s.pison s.text s.table s.query w s.levels 1 none 0 []

  abbrev pub simdjson_run : Simdjson.Workload → Extraction
  simdjson_run w =
      (Simdjson.Runs.run_serial s.simdjson s.have_newline_delimited s.data_ s.bytes s.query w false
        s.batch none 0).0

  abbrev pub dom_serial : Library → Extraction
  dom_serial lib = DomEngine.run_serial s.build lib s.data_ s.bytes s.query

  -- Eight threads, slices of 256 KiB, dynamic assignment.
  abbrev pub dom_parallel : Library → Extraction
  dom_parallel lib =
      DomEngine.run_parallel s.build lib s.data_ s.bytes s.query 8 (256 * 2 ^ 10) false
        (s.schedule lib)

  abbrev pub skipped : Library → Bool
  skipped lib = s.no_dom || not (available s.build lib)

  -- The loop over `kDomLibraries`.
  unfoldable pub libraries_agree : Extraction → List Library → Bool
  libraries_agree sj_dec [] = true
  libraries_agree sj_dec (lib ∷ libs) =
      (if skipped lib
        then true
        else agrees (dom_serial lib) sj_dec && agrees (dom_parallel lib) sj_dec)
      && libraries_agree sj_dec libs

  unfoldable pub agreement : Bool
  unfolding libraries_agree
  agreement =
      agrees (pison_run Pison.query) (simdjson_run Simdjson.query)
      && agrees (pison_run Pison.decode) (simdjson_run Simdjson.decode)
      && libraries_agree (simdjson_run Simdjson.decode) dom_libraries

-- The program ends with a status, or it goes on to the measurements.
pub data Verdict : Type 0 where
  exits : ℕ → Verdict
  goes_on : Verdict

unfoldable pub verdict_of : Bool → ℕ → Bool → Bool → Verdict
verdict_of wants_verify dump verify_only agree =
    if ltb 0 dump
    then exits 0
    else if verify_only
    then exits (if agree then 0 else 2)
    else if wants_verify && not agree
    then exits 2
    else goes_on

unfoldable pub verdict : Setup → Bytes → ℕ → Bool → Verdict
unfolding agreement wants verdict_of
verdict s sections dump verify_only =
    let wanted = wants sections (codes "verify") in
    verdict_of wanted dump verify_only (if wanted || ltb 0 dump then agreement s else true)

-- The comparison before a bulky record is timed: `none` lets the program go on. `precord` is the
-- record padded to `ppadded` bytes, and behind it.
unfoldable pub bulky_exit : Setup → Bytes → ℕ → Option ℕ
bulky_exit s precord ppadded =
    let sqe = run_single_document s.simdjson s.data_ s.bytes s.query Simdjson.query in
    let pqe = run_single_record s.pison precord ppadded s.query Pison.query s.levels 1 in
    if ltb 0 sqe.matches && agrees pqe sqe then none else some 2
