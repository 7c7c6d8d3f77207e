-- ===== src/Driver/Options.antt =====
-- src/main.cpp: the options and the command line. An `int` is its 32 bits, in two's complement.
pub mod Lists
use jsonstreambench.Prelude.{
  ℕ, ◌+◌, ◌-◌, ◌*◌, ◌%◌, ◌^◌, Bool, true, false, ◌&&◌, ◌||◌, List, [], ◌∷◌, ◌++◌, Option, none,
  some, Bytes, codes, if◌then◌else◌, ltb, leb, ◌==◌, u64_mod,
}
use jsonstreambench.QueryId.{bytes_eq}

pub record Options : Type 0 where
  pub dataset : Bytes
  pub label : Bytes
  pub query_name : Bytes
  pub threads : List ℕ
  pub reps : ℕ
  pub slice_kb : ℕ
  pub batch_mb : ℕ
  pub static_partition : Bool
  pub single_record : Bool
  pub verify_only : Bool
  pub no_dom : Bool
  pub interleave : Bool
  pub dump : ℕ
  pub levels : ℕ
  pub sections : Bytes
  pub only_engine : Bytes
  pub impl : Bytes

abbrev pub default_options : Options
default_options = record {
  dataset = [];
  label = [];
  query_name = [];
  threads = [];
  reps = 3;
  slice_kb = 0;
  batch_mb = 16;
  static_partition = false;
  single_record = false;
  verify_only = false;
  no_dom = false;
  interleave = false;
  dump = 0;
  levels = 0;
  sections = codes "load,verify,single,scaling,e2e";
  only_engine = [];
  impl = [];
}

-- The number that the digits at the front give.
unfoldable pub read_digits : ℕ → Bytes → ℕ
read_digits n [] = n
read_digits n (c ∷ s) =
    let rest = read_digits (n * 10 + (c - b'0')) s in if leb b'0' c && leb c b'9' then rest else n

-- A sign, if there is one: whether it is a minus, and the number behind it.
unfoldable pub read_sign : Bytes → Bool × ℕ
unfolding read_digits
read_sign [] = (false, 0)
read_sign (c ∷ s) =
    if c == b'-'
    then (true, read_digits 0 s)
    else if c == b'+'
    then (false, read_digits 0 s)
    else (false, read_digits 0 (c ∷ s))

-- White space is a blank, or a byte from 9 to 13.
unfoldable pub read_number : Bytes → Bool × ℕ
unfolding read_sign
read_number [] = (false, 0)
read_number (c ∷ s) =
    let rest = read_number s in
    if c == b' ' || (leb 9 c && leb c 13) then rest else read_sign (c ∷ s)

-- `strtoull(s, nullptr, 10)`: the largest number stands for those that are larger, and a minus
-- negates modulo `2 ^ 64`.
unfoldable pub strtoull : Bytes → ℕ
unfolding read_number
strtoull s =
    let (minus, n) = read_number s in
    if leb u64_mod n then u64_mod - 1 else if minus then (u64_mod - n) % u64_mod else n

-- `atoi(s)`, as `strtol` cut to 32 bits.
unfoldable pub atoi : Bytes → ℕ
unfolding read_number
atoi s =
    let (minus, n) = read_number s in
    if minus
    then (u64_mod - (if ltb (2 ^ 63) n then 2 ^ 63 else n)) % 2 ^ 32
    else (if leb (2 ^ 63) n then 2 ^ 63 - 1 else n) % 2 ^ 32

-- `getline` with commas, without the empty tokens; `tok` is what is read of a token.
unfoldable pub tokens : Bytes → Bytes → List Bytes
tokens [] [] = []
tokens (d ∷ tok) [] = (d ∷ tok) ∷ []
tokens tok (c ∷ s) =
    let rest = tokens (if c == b',' then [] else tok ++ c ∷ []) s in
    if c == b',' && not_empty tok then tok ∷ rest else rest
  where
    not_empty : Bytes → Bool
    not_empty [] = false
    not_empty (d ∷ t) = true

unfoldable pub push_threads : List Bytes → List ℕ → List ℕ
unfolding strtoull
push_threads [] threads = threads
push_threads (tok ∷ toks) threads = push_threads toks (threads ++ strtoull tok ∷ [])

-- What an argument is: a flag, an option whose value follows, or neither.
pub data Argument : Type 0 where
  flag : (Options → Options) → Argument
  valued : (Bytes → Options → Option Options) → Argument
  help unknown : Argument

unfoldable pub assign : Bytes → Options → Option Options
assign mode o =
    if bytes_eq mode (codes "static")
    then some (record o { static_partition = true })
    else if bytes_eq mode (codes "dynamic")
    then some (record o { static_partition = false })
    else none

-- The chain of comparisons.
unfoldable pub argument : Bytes → Argument
unfolding assign push_threads tokens strtoull atoi
argument a =
    if bytes_eq a (codes "--dataset")
    then valued (λ v o. some (record o { dataset = v }))
    else if bytes_eq a (codes "--label")
    then valued (λ v o. some (record o { label = v }))
    else if bytes_eq a (codes "--query")
    then valued (λ v o. some (record o { query_name = v }))
    else if bytes_eq a (codes "--reps")
    then valued (λ v o. some (record o { reps = atoi v }))
    else if bytes_eq a (codes "--slice-kb")
    then valued (λ v o. some (record o { slice_kb = strtoull v }))
    else if bytes_eq a (codes "--batch-mb")
    then valued (λ v o. some (record o { batch_mb = strtoull v }))
    else if bytes_eq a (codes "--assign")
    then valued assign
    else if bytes_eq a (codes "--single-record")
    then flag (λ o. record o { single_record = true })
    else if bytes_eq a (codes "--no-dom")
    then flag (λ o. record o { no_dom = true })
    else if bytes_eq a (codes "--interleave")
    then flag (λ o. record o { interleave = true })
    else if bytes_eq a (codes "--verify")
    then flag (λ o. record o { verify_only = true })
    else if bytes_eq a (codes "--dump")
    then valued (λ v o. some (record o { dump = strtoull v }))
    else if bytes_eq a (codes "--sections")
    then valued (λ v o. some (record o { sections = v }))
    else if bytes_eq a (codes "--engine-only")
    then valued (λ v o. some (record o { only_engine = v }))
    else if bytes_eq a (codes "--impl")
    then valued (λ v o. some (record o { impl = v }))
    else if bytes_eq a (codes "--levels")
    then valued (λ v o. some (record o { levels = atoi v }))
    else if bytes_eq a (codes "--threads")
    then valued (λ v o. some (record o { threads = push_threads (tokens [] v) o.threads }))
    else if bytes_eq a (codes "-h") || bytes_eq a (codes "--help")
    then help
    else unknown

-- The options, or the program ends with an error, or with the help that was asked for.
pub data Parsed : Type 0 where
  accepted : Options → Parsed
  refused : Parsed
  helped : Parsed

abbrev pub finish_args : Options → Parsed
finish_args o = if bytes_eq o.dataset [] then refused else accepted o

-- The arguments behind the name of the program; a value that is missing is empty.
unfoldable pub parse_args : List Bytes → Options → Parsed
unfolding argument
parse_args [] o = finish_args o
parse_args (a ∷ []) o = elim (argument a) [
  | flag f ↦ finish_args (f o)
  | valued f ↦ elim (f [] o) [ some next ↦ finish_args next | none ↦ refused ]
  | help ↦ helped
  | unknown ↦ refused
]
parse_args (a ∷ v ∷ args) o = elim (argument a) [
  | flag f ↦ parse_args (v ∷ args) (f o)
  | valued f ↦ elim (f v o) [ some next ↦ parse_args args next | none ↦ refused ]
  | help ↦ helped
  | unknown ↦ refused
]
