-- ===== src/Loaders/Fast.antt =====
-- src/loaders.h: `fast_loader` and `boundary_scan` beside `reference_loader`.
use jsonstreambench.Prelude.{
  ℕ, suc, ◌+◌, ◌%◌, ◌≤◌, ◌<◌, ◌≡◌, refl, ap, ◌∙◌, sym, List, [], ◌∷◌, ◌++◌, arith, Option, Bytes,
  length, set, replicate, if◌then◌else◌, ltb, u64_mod, length-append, append-nil,
}
use jsonstreambench.Loaders.{
  Span, LoadedRecords, u32_mod, padded_length, padded_sum, count, scan_range, scan_chunks,
  chunk_bounds, copy_record, push_records, set_records, chunk_starts, index_starts, last_of,
  set_chunks, resize, reference_loader, fast_loader, boundary_scan,
}
use jsonstreambench.Loaders.Chunks.{flatten, scan_chunks-scan_range}

set_next :
    {A : Type 0} (done : List A) (n : ℕ) (x v : A)
    → set (done ++ replicate (suc n) x) (length done) v ≡ (done ++ v ∷ []) ++ replicate n x
set_next [] n x v = refl
set_next (d ∷ done) n x v = ap (λ t. d ∷ t) (set_next done n x v)

length_snoc : {A : Type 0} (done : List A) (v : A) → length (done ++ v ∷ []) ≡ suc (length done)
length_snoc done v = omega (arith, length-append done (v ∷ []))

-- A table whose first entries are set, with room for `n` more.
with_room : LoadedRecords → ℕ → LoadedRecords
with_room out n = record {
  text = out.text;
  table = record {
    offset = out.table.offset ++ replicate n 0;
    lengths = out.table.lengths ++ replicate n 0;
  };
}

room_none : (out : LoadedRecords) → with_room out 0 ≡ out
unfolding with_room
room_none out = λ i. record {
  text = out.text;
  table = record {
    offset = append-nil out.table.offset i;
    lengths = append-nil out.table.lengths i;
  };
}

-- Setting entry after entry is pushing them.
set_records-push_records :
    (data_ : Bytes) (spans : List Span) (cursor idx n : ℕ) (out : LoadedRecords)
    → length out.table.offset ≡ idx
    → length out.table.lengths ≡ idx
    → set_records data_ spans cursor idx (with_room out (length spans + n))
      ≡ with_room (push_records data_ spans cursor out) n
unfolding set_records push_records with_room
set_records-push_records data_ [] cursor idx n out p q =
    let e : 0 + n ≡ n = omega arith in rw e refl
set_records-push_records data_ (s ∷ spans) cursor idx n out p q =
    let m = length spans + n in
    let e : suc (length spans) + n ≡ suc m = omega arith in
    let padded = padded_length s.len in
    let offset =
      ap (λ k. set (out.table.offset ++ replicate (suc m) 0) k cursor) (sym p)
      ∙ set_next out.table.offset m 0 cursor in
    let lengths =
      ap (λ k. set (out.table.lengths ++ replicate (suc m) 0) k (padded % u32_mod)) (sym q)
      ∙ set_next out.table.lengths m 0 (padded % u32_mod) in
    let text = copy_record data_ s cursor out.text in
    let pushed : LoadedRecords = record {
      text = text;
      table = record {
        offset = out.table.offset ++ cursor ∷ [];
        lengths = out.table.lengths ++ (padded % u32_mod) ∷ [];
      };
    } in
    rw e (
      ap (set_records data_ spans ((cursor + padded) % u64_mod) (suc idx))
        (λ i. record { text = text; table = record { offset = offset i; lengths = lengths i } })
      ∙ set_records-push_records data_ spans ((cursor + padded) % u64_mod) (suc idx) n pushed
          (length_snoc out.table.offset cursor ∙ ap suc p)
          (length_snoc out.table.lengths (padded % u32_mod) ∙ ap suc q))

padded_sum-start :
    (c : ℕ) (spans : List Span)
    → padded_sum (c % u64_mod) spans ≡ (c + padded_sum 0 spans) % u64_mod
unfolding padded_sum
padded_sum-start c [] = omega arith
padded_sum-start c (s ∷ spans) =
    let p = padded_length s.len in
    let from_c : (c % u64_mod + p) % u64_mod ≡ (c + p) % u64_mod = omega arith in
    let from_0 : (0 + p) % u64_mod ≡ p % u64_mod = omega arith in
    rw (from_c, from_0, padded_sum-start (c + p) spans, padded_sum-start p spans) (omega arith)

push_records-append :
    (data_ : Bytes) (xs ys : List Span) (cursor : ℕ) (out : LoadedRecords)
    → push_records data_ (xs ++ ys) cursor out
      ≡ push_records data_ ys (padded_sum cursor xs) (push_records data_ xs cursor out)
unfolding push_records padded_sum
push_records-append data_ [] ys cursor out = refl
push_records-append data_ (s ∷ xs) ys cursor out = push_records-append data_ xs ys _ _

-- As many entries as spans.
push_records-length :
    (data_ : Bytes) (spans : List Span) (cursor : ℕ) (out : LoadedRecords)
    → let after = (push_records data_ spans cursor out).table in
      (length after.offset ≡ length out.table.offset + length spans)
      × (length after.lengths ≡ length out.table.lengths + length spans)
unfolding push_records
push_records-length data_ [] cursor out = (omega arith, omega arith)
push_records-length data_ (s ∷ spans) cursor out =
    let padded = padded_length s.len in
    let a = length_snoc out.table.offset cursor in
    let b = length_snoc out.table.lengths (padded % u32_mod) in
    let pushed : LoadedRecords = record {
      text = copy_record data_ s cursor out.text;
      table = record {
        offset = out.table.offset ++ cursor ∷ [];
        lengths = out.table.lengths ++ (padded % u32_mod) ∷ [];
      };
    } in
    let (offsets, lens) = push_records-length data_ spans ((cursor + padded) % u64_mod) pushed in
    (omega (arith, offsets, a), omega (arith, lens, b))

-- The threads, one after the other, each from its own start.
set_chunks-push_records :
    (data_ : Bytes) (chunks : List (List Span)) (cursor idx : ℕ) (out : LoadedRecords)
    → cursor < u64_mod
    → length out.table.offset ≡ idx
    → length out.table.lengths ≡ idx
    → set_chunks data_ chunks
        (chunk_starts cursor chunks)
        (index_starts idx chunks)
        (with_room out (count chunks))
      ≡ push_records data_ (flatten chunks) cursor out
unfolding set_chunks chunk_starts index_starts count flatten
set_chunks-push_records data_ [] cursor idx out small p q =
    room_none out ∙ unfold push_records in refl
set_chunks-push_records data_ (spans ∷ chunks) cursor idx out small p q =
    let (offsets, lens) = push_records-length data_ spans cursor out in
    let e : cursor ≡ cursor % u64_mod = omega arith in
    let next : (cursor + padded_sum 0 spans) % u64_mod ≡ padded_sum cursor spans =
      sym (padded_sum-start cursor spans) ∙ ap (λ c. padded_sum c spans) (sym e) in
    rw (set_records-push_records data_ spans cursor idx (count chunks) out p q) (
      set_chunks-push_records data_ chunks ((cursor + padded_sum 0 spans) % u64_mod)
        (idx + length spans) (push_records data_ spans cursor out) (omega arith)
        (omega (arith, offsets)) (omega (arith, lens))
      ∙ ap (λ c. push_records data_ (flatten chunks) c (push_records data_ spans cursor out)) next
      ∙ sym (push_records-append data_ spans (flatten chunks) cursor out))

last_chunk_skip :
    (x c : ℕ) (chunks : List (List Span))
    → last_of (x ∷ chunk_starts c chunks) ≡ last_of (chunk_starts c chunks)
unfolding chunk_starts last_of
last_chunk_skip x c [] = refl
last_chunk_skip x c (spans ∷ chunks) = refl

padded_sum-append :
    (c : ℕ) (xs ys : List Span) → padded_sum c (xs ++ ys) ≡ padded_sum (padded_sum c xs) ys
unfolding padded_sum
padded_sum-append c [] ys = refl
padded_sum-append c (s ∷ xs) ys = padded_sum-append ((c + padded_length s.len) % u64_mod) xs ys

last_chunk_starts :
    (c : ℕ) (chunks : List (List Span))
    → c < u64_mod
    → last_of (chunk_starts c chunks) ≡ padded_sum c (flatten chunks)
unfolding chunk_starts last_of flatten
last_chunk_starts c [] small = unfold padded_sum in refl
last_chunk_starts c (spans ∷ chunks) small =
    let e : c % u64_mod ≡ c = omega arith in
    let next : (c + padded_sum 0 spans) % u64_mod ≡ padded_sum c spans =
      sym (padded_sum-start c spans) ∙ ap (λ k. padded_sum k spans) e in
    last_chunk_skip c _ chunks
    ∙ last_chunk_starts ((c + padded_sum 0 spans) % u64_mod) chunks (omega arith)
    ∙ ap (λ k. padded_sum k (flatten chunks)) next
    ∙ sym (padded_sum-append c spans (flatten chunks))

last_index_skip :
    (x c : ℕ) (chunks : List (List Span))
    → last_of (x ∷ index_starts c chunks) ≡ last_of (index_starts c chunks)
unfolding index_starts last_of
last_index_skip x c [] = refl
last_index_skip x c (spans ∷ chunks) = refl

last_index_starts :
    (c : ℕ) (chunks : List (List Span)) → last_of (index_starts c chunks) ≡ c + count chunks
unfolding index_starts last_of count
last_index_starts c [] = omega arith
last_index_starts c (spans ∷ chunks) =
    let rest = last_index_starts (c + length spans) chunks in
    last_index_skip c (c + length spans) chunks ∙ omega arith

-- The parallel loader, at any number of threads, builds the text and the record table that the
-- serial one builds.
pub fast_loader-reference_loader :
    (allocate : ℕ → Option Bytes) (data_ : Bytes) (size threads : ℕ)
    → size ≤ length data_
    → fast_loader allocate data_ size threads ≡ reference_loader allocate data_ size
unfolding fast_loader reference_loader with_room
fast_loader-reference_loader allocate data_ size threads fits =
    let n = if ltb threads 1 then 1 else threads in
    let chunks = scan_chunks data_ (chunk_bounds data_ size n) in
    let whole : flatten chunks ≡ scan_range data_ 0 size =
      scan_chunks-scan_range data_ size n fits in
    rw (← whole, last_chunk_starts 0 chunks (omega arith), last_index_starts 0 chunks)
      (let e : 0 + count chunks ≡ count chunks = omega arith in
        rw e (
          set_chunks-push_records data_ chunks 0 0
            (record {
              text = resize allocate ((padded_sum 0 (flatten chunks) + 64) % u64_mod);
              table = record { offset = []; lengths = [] };
            })
            (omega arith) refl refl))

count-flatten : (chunks : List (List Span)) → count chunks ≡ length (flatten chunks)
unfolding count flatten
count-flatten [] = refl
count-flatten (spans ∷ chunks) =
    omega (arith, count-flatten chunks, length-append spans (flatten chunks))

-- The scan for boundaries, at any number of threads, counts the entries of the table that the
-- serial loader builds.
pub boundary_scan-reference_loader :
    (allocate : ℕ → Option Bytes) (data_ : Bytes) (size threads : ℕ)
    → size ≤ length data_
    → boundary_scan data_ size threads ≡ length (reference_loader allocate data_ size).table.offset
unfolding boundary_scan reference_loader
boundary_scan-reference_loader allocate data_ size threads fits =
    let n = if ltb threads 1 then 1 else threads in
    let spans = scan_range data_ 0 size in
    let (offsets, lens) = push_records-length data_ spans 0 (record {
      text = resize allocate ((padded_sum 0 spans + 64) % u64_mod);
      table = record { offset = []; lengths = [] };
    }) in
    count-flatten (scan_chunks data_ (chunk_bounds data_ size n))
    ∙ ap length (scan_chunks-scan_range data_ size n fits)
    ∙ omega (arith, offsets)
