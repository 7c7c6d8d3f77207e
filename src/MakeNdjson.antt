-- ===== src/MakeNdjson.antt =====
-- tools/make_ndjson.cpp: the elements of the dominating array of a document, one to a line. Files
-- are parameters: what loading a path gives, and whether a path can be opened for writing.
pub mod Lines
use jsonstreambench.Prelude.{
  ℕ, zero, suc, ◌+◌, ◌%◌, Bool, true, false, ◌&&◌, not, List, [], ◌∷◌, ◌++◌, Option, none, some,
  Bytes, codes, if◌then◌else◌, length, u64_mod,
}
use jsonstreambench.Lines.{newline}
use jsonstreambench.QueryId.{bytes_eq}
use jsonstreambench.Ondemand.{Outcome, ok, err, ◌>>=◌, JsonType, Api}

-- What is in the file, and the counts that are printed; or the file where a record failed.
pub data Written : Type 0 where
  wrote : Bytes → ℕ → ℕ → Written
  failed : Bytes → Written

-- The exit status, and the file if one was opened.
pub record Report : Type 0 where
  pub status : ℕ
  pub file : Option Bytes

abbrev pub stop : Report
stop = record { status = 1; file = none }

abbrev pub is_ok : {A : Type 0} → Outcome A → Bool
is_ok (ok a) = true
is_ok (err e) = false

-- `want_key && key != want_key`.
abbrev pub unwanted : Option Bytes → Bytes → Bool
unwanted none key = false
unwanted (some want) key = not (bytes_eq key want)

abbrev pub is_array : Outcome JsonType → Bool
is_array (ok JsonType.array) = true
is_array _ = false

module _ (api : Api) where
  open api use {Document, Value, Array}

  -- The array that a member holds, if it is one that is looked for.
  unfoldable pub member_array : Option Bytes → Bytes → Value → Option (Bytes × Array)
  member_array want key v =
      if unwanted want key
      then none
      else if is_array (api.type_of v)
      then elim (api.value_array v) [ ok a ↦ some (key, a) | err e ↦ none ]
      else none

  unfoldable pub first_array : Option Bytes → List (Outcome Bytes × Value) → Option (Bytes × Array)
  unfolding member_array
  first_array want [] = none
  first_array want ((err e, v) ∷ rest) = first_array want rest
  first_array want ((ok key, v) ∷ rest) = elim (member_array want key v) [
    | some chosen ↦ some chosen
    | none ↦ first_array want rest
  ]

  unfoldable pub root_array : Outcome Array → Option (Bytes × Array)
  root_array (ok a) = some (codes "<root>", a)
  root_array (err e) = none

  unfoldable pub root_member : Option Bytes → Outcome api.Object → Option (Bytes × Array)
  unfolding first_array
  root_member want (ok o) = first_array want (api.fields o)
  root_member want (err e) = none

  -- The array with its key; `none` is an error.
  unfoldable pub choose_typed : Option Bytes → Document → Outcome JsonType → Option (Bytes × Array)
  unfolding root_array root_member
  choose_typed want doc (ok JsonType.array) = root_array (api.document_array doc)
  choose_typed want doc (ok JsonType.object) = root_member want (api.document_object doc)
  choose_typed want doc _ = none

  unfoldable pub choose_items : Option Bytes → Document → Option (Bytes × Array)
  unfolding choose_typed
  choose_items want doc = choose_typed want doc (api.document_type doc)

  -- The loop over the items.
  unfoldable pub write_items : List (Outcome Value) → Bytes → ℕ → ℕ → Written
  write_items [] out count written = wrote out count written
  write_items (item ∷ items) out count written = elim (item >>= api.raw_json) [
    | err e ↦ write_items items out count written
    | ok raw ↦ elim (api.minify raw) [
      | err e ↦ failed out
      | ok line ↦
          write_items items (out ++ (line ++ newline ∷ [])) ((count + 1) % u64_mod)
            ((written + (length line + 1)) % u64_mod)
    ]
  ]

  unfoldable pub report : Written → Report
  report (wrote file count written) = record { status = 0; file = some file }
  report (failed file) = record { status = 1; file = some file }

  unfoldable pub convert : Bool → Option (Bytes × Array) → Report
  unfolding report
  convert can_open none = stop
  convert can_open (some (key, items)) =
      if can_open then report (write_items (api.elements items) [] 0 0) else stop

  unfoldable pub parsed : Option Bytes → Bool → Outcome Document → Report
  unfolding convert
  parsed want can_open (err e) = stop
  parsed want can_open (ok doc) = convert can_open (choose_items want doc)

  unfoldable pub loaded : Option Bytes → Bool → Outcome Bytes → Report
  unfolding parsed
  loaded want can_open (err e) = stop
  loaded want can_open (ok json) = parsed want can_open (api.iterate json)

  -- `main`, with the arguments behind the name of the program.
  unfoldable pub make_ndjson : (Bytes → Outcome Bytes) → (Bytes → Bool) → List Bytes → Report
  unfolding loaded
  make_ndjson load can_open (in_path ∷ out_path ∷ []) =
      loaded none (can_open out_path) (load in_path)
  make_ndjson load can_open (in_path ∷ out_path ∷ key ∷ rest) =
      loaded (some key) (can_open out_path) (load in_path)
  make_ndjson load can_open _ = stop
