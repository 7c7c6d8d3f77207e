-- ===== src/MakeNdjson/Lines.antt =====
-- tools/make_ndjson.cpp: the lines of the file that is written.
use jsonstreambench.Prelude.{
  ℕ, ◌+◌, ◌%◌, ◌≡◌, refl, ap, ◌∙◌, sym, Bool, true, false, List, [], ◌∷◌, ◌++◌, append_assoc,
  append-nil, Option, none, some, arith, Bytes, ◌==◌, length, length-append, u64_mod, ◌⊎◌, inl, inr,
  Option-cases, ◌<◌,
}
use jsonstreambench.Lines.{newline}
use jsonstreambench.Lines.Split.{lines, extend}
use jsonstreambench.Ondemand.{Outcome, ok, err, ◌>>=◌, Api}
use jsonstreambench.MakeNdjson.{
  wrote, choose_items, write_items, report, convert, parsed, loaded, make_ndjson,
}

-- The arguments behind the paths: a key and what follows it, or nothing.
abbrev pub key_args : Option Bytes → List Bytes → List Bytes
key_args none rest = []
key_args (some k) rest = k ∷ rest

-- No byte is a line feed.
abbrev pub IsLine : Bytes → Type 0
IsLine [] = Unit
IsLine (c ∷ s) = ((c == newline) ≡ false) × IsLine s

-- No text has a line feed, as `minify` leaves none of a valid record.
abbrev pub AllLines : List Bytes → Type 0
AllLines [] = Unit
AllLines (t ∷ ts) = IsLine t × AllLines ts

-- The texts with a line feed behind each.
unfoldable pub file_of : List Bytes → Bytes
file_of [] = []
file_of (t ∷ ts) = (t ++ newline ∷ []) ++ file_of ts

lines_first : (t s : Bytes) → IsLine t → lines ((t ++ newline ∷ []) ++ s) ≡ t ∷ lines s
unfolding lines extend
lines_first [] s h = refl
lines_first (c ∷ t) s (not_end, h) = rw (not_end, lines_first t s h) refl

lines-file_of : (ts : List Bytes) → AllLines ts → lines (file_of ts) ≡ ts
unfolding file_of
lines-file_of [] h = unfold lines in refl
lines-file_of (t ∷ ts) (one, rest) =
    lines_first t (file_of ts) one ∙ ap (λ l. t ∷ l) (lines-file_of ts rest)

file_of_cons :
    (t : Bytes) (ts : List Bytes) → length (file_of (t ∷ ts)) ≡ length t + 1 + length (file_of ts)
unfolding file_of
file_of_cons t ts =
    omega (arith, length-append (t ++ newline ∷ []) (file_of ts), length-append t (newline ∷ []))

module _ (api : Api) where
  -- The records of the items that can be read, minified; `none` if one cannot be minified.
  unfoldable pub records : List (Outcome api.Value) → Option (List Bytes)
  records [] = some []
  records (item ∷ items) = elim (item >>= api.raw_json) [
    | err e ↦ records items
    | ok raw ↦ elim (api.minify raw) [
      | err e ↦ none
      | ok line ↦ elim (records items) [ none ↦ none | some ts ↦ some (line ∷ ts) ]
    ]
  ]

  outcome_cases : {A : Type 0} (x : Outcome A) → ((a : A) × (x ≡ ok a)) ⊎ ((e : ℕ) × (x ≡ err e))
  outcome_cases (ok a) = inl (a, refl)
  outcome_cases (err e) = inr (e, refl)

  -- The records of a list that begins with an item, case by case.
  data First (item : Outcome api.Value) (items : List (Outcome api.Value)) (ts : List Bytes)
      : Type 0 where
    skipped :
        (e : ℕ) → (item >>= api.raw_json) ≡ err e → records items ≡ some ts → First item items ts
    taken :
        (raw line : Bytes) (rest : List Bytes)
        → (item >>= api.raw_json) ≡ ok raw
        → api.minify raw ≡ ok line
        → records items ≡ some rest
        → ts ≡ line ∷ rest
        → First item items ts

  records-First :
      (item : Outcome api.Value) (items : List (Outcome api.Value)) (ts : List Bytes)
      → records (item ∷ items) ≡ some ts
      → First item items ts
  unfolding records
  records-First item items ts h = elim (outcome_cases (item >>= api.raw_json)) [
    | inr (e, bad) ↦ skipped e bad (rw (bad, records) at h)
    | inl (raw, fine) ↦ elim (outcome_cases (api.minify raw)) [
      | inr (e, bad) ↦ absurd (ground arith)
      | inl (line, small) ↦ elim (Option-cases (records items)) [
        | inl none_left ↦ absurd (ground arith)
        | inr (rest, found) ↦ taken raw line rest fine small found (ground arith)
      ]
    ]
  ]

  records_nil : (ts : List Bytes) → records [] ≡ some ts → ts ≡ []
  unfolding records
  records_nil ts h = ground arith

  write_items-records :
      (items : List (Outcome api.Value)) (ts : List Bytes) (out : Bytes) (count written : ℕ)
      → records items ≡ some ts
      → count < u64_mod
      → written < u64_mod
      → write_items api items out count written
        ≡ wrote
            (out ++ file_of ts)
            ((count + length ts) % u64_mod)
            ((written + length (file_of ts)) % u64_mod)
  unfolding write_items
  write_items-records [] ts out count written h small fits = go ts (unfold records in h)
    where
      go :
          (ts : List Bytes)
          → some [] ≡ some ts
          → wrote out count written
            ≡ wrote
                (out ++ file_of ts)
                ((count + length ts) % u64_mod)
                ((written + length (file_of ts)) % u64_mod)
      go [] e =
          let c : (count + 0) % u64_mod ≡ count = omega arith in
          let w : (written + 0) % u64_mod ≡ written = omega arith in
          unfold file_of in rw (append-nil out, c, w) refl
      go (t ∷ ts) e = absurd (ground arith)
  write_items-records (item ∷ items) ts out count written h small fits =
      elim (records-First item items ts h) [
        | skipped e bad rest ↦
            rw (bad, write_items) (write_items-records items ts out count written rest small fits)
        | taken raw line rest fine short found split ↦
            let one = line ++ newline ∷ [] in
            let next =
              write_items-records items rest (out ++ one) ((count + 1) % u64_mod)
                ((written + (length line + 1)) % u64_mod) found (omega arith) (omega arith) in
            let text : out ++ file_of (line ∷ rest) ≡ (out ++ one) ++ file_of rest =
              unfold file_of in sym (append_assoc out one (file_of rest)) in
            let size : length (file_of (line ∷ rest)) ≡ length line + 1 + length (file_of rest) =
              file_of_cons line rest in
            let c : (count + length (line ∷ rest)) % u64_mod
                ≡ ((count + 1) % u64_mod + length rest) % u64_mod =
              omega arith in
            let w : (written + length (file_of (line ∷ rest))) % u64_mod
                ≡ ((written + (length line + 1)) % u64_mod + length (file_of rest)) % u64_mod =
              omega (arith, size) in
            rw (split, text, c, w, fine, short, write_items) next
      ]

  -- If the input loads and parses, an array is found, the output can be opened, and the items
  -- that can be read are minified to texts without line feeds, then the program exits with 0
  -- and the lines of its file are these texts, in order.
  pub make_ndjson-lines :
      (load : Bytes → Outcome Bytes) (can_open : Bytes → Bool) (in_path out_path : Bytes)
      (key : Option Bytes) (rest : List Bytes) (json : Bytes) (doc : api.Document) (name : Bytes)
      (items : api.Array) (ts : List Bytes)
      → AllLines ts
      → load in_path ≡ ok json
      → api.iterate json ≡ ok doc
      → choose_items api key doc ≡ some (name, items)
      → can_open out_path ≡ true
      → records (api.elements items) ≡ some ts
      → let out = make_ndjson api load can_open (in_path ∷ out_path ∷ key_args key rest) in
        (out.status ≡ 0) × (file : Bytes) × (out.file ≡ some file) × (lines file ≡ ts)
  unfolding make_ndjson
  make_ndjson-lines load can_open in_path out_path none rest json doc name items ts short at tree
        chosen opened found =
      let w =
        write_items-records (api.elements items) ts [] 0 0 found (omega arith) (omega arith) in
      let l = lines-file_of ts short in
      rw (at, loaded, tree, parsed, chosen, convert, opened, w, report) (refl, file_of ts, refl, l)
  make_ndjson-lines load can_open in_path out_path (some k) rest json doc name items ts short at
        tree chosen opened found =
      let w =
        write_items-records (api.elements items) ts [] 0 0 found (omega arith) (omega arith) in
      let l = lines-file_of ts short in
      rw (at, loaded, tree, parsed, chosen, convert, opened, w, report) (refl, file_of ts, refl, l)
