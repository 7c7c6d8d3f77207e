-- ===== src/Loaders/Layout.antt =====
-- src/loaders.h, `reference_loader`: what its text and its table hold.
use jsonstreambench.Prelude.{
  ℕ, zero, suc, ◌+◌, ◌-◌, ◌*◌, ◌/◌, ◌%◌, ◌≤◌, ◌<◌, ◌≡◌, ap, ◌∙◌, sym, false, List, [], ◌∷◌, ◌++◌,
  arith, Option, some, Bytes, length, take, ltb, ◌==◌, window, length-window, Bool-cases, inl, inr,
  u64_mod, append_assoc, append-nil, length-append, length-take, take_append_length,
}
use jsonstreambench.Trim.{shrink, shrink-le, rtrim, rtrim-le}
use jsonstreambench.Lines.{newline}
use jsonstreambench.Lines.Split.{lines, total_length, total_length-lines}
use jsonstreambench.Slicing.{snap}
use jsonstreambench.Loaders.{
  Span, RecordTable, u32_mod, min_record_bytes, is_terminator, span_of, scan_loop, scan_range,
  copy_record, padded_length, padded_sum, push_records, resize, reference_loader,
}
use jsonstreambench.Loaders.Scan.{scan_loop_step, scan_loop_end, snap_on}
use jsonstreambench.Loaders.Records.{records, records_of, texts, scan_range-records}
use jsonstreambench.Loaders.Padding.{
  padded, padded_text, offsets_of, lengths_of, length-padded, copy_record_lem,
}

-- Spans that lie in the input and leave room for padding in 32 bits.
InData : Bytes → List Span → Type 0
InData data_ [] = Unit
InData data_ (s ∷ spans) =
    (s.off + s.len ≤ length data_) × (s.len + 64 < u32_mod) × InData data_ spans

padded_length-padded :
    (data_ : Bytes) (s : Span)
    → s.off + s.len ≤ length data_
    → s.len + 64 < u32_mod
    → let n = length (padded (window data_ s.off s.len)) in
      (padded_length s.len ≡ n) × (padded_length s.len % u32_mod ≡ n)
unfolding padded_length
padded_length-padded data_ s within small =
    let len = length-window data_ s.off s.len within in
    let all = length-padded (window data_ s.off s.len) in (omega arith, omega arith)

padded_sum_lem :
    (data_ : Bytes) (c : ℕ) (spans : List Span)
    → InData data_ spans
    → c + length (padded_text (texts data_ spans)) < u64_mod
    → padded_sum c spans ≡ c + length (padded_text (texts data_ spans))
unfolding padded_sum texts padded_text InData
padded_sum_lem data_ c [] inside small = omega arith
padded_sum_lem data_ c (s ∷ spans) (within, fits, inside) small =
    let w : Bytes = window data_ s.off s.len in
    let (same, low) = padded_length-padded data_ s within fits in
    let all = length-append (padded w) (padded_text (texts data_ spans)) in
    let e : (c + padded_length s.len) % u64_mod ≡ c + length (padded w) = omega arith in
    rw e (padded_sum_lem data_ (c + length (padded w)) spans inside (omega arith) ∙ omega arith)

push_records_step :
    (data_ : Bytes) (s : Span) (spans : List Span) (cursor next n : ℕ) (text written : Bytes)
    (table : RecordTable)
    → (cursor + padded_length s.len) % u64_mod ≡ next
    → padded_length s.len % u32_mod ≡ n
    → copy_record data_ s cursor text ≡ written
    → push_records data_ (s ∷ spans) cursor (record { text = text; table = table })
      ≡ push_records data_ spans next (record {
        text = written;
        table = record { offset = table.offset ++ cursor ∷ []; lengths = table.lengths ++ n ∷ [] };
      })
unfolding push_records
push_records_step data_ s spans cursor next n text written table p q r = λ i.
    push_records data_ spans (p i) (record {
      text = r i;
      table = record { offset = table.offset ++ cursor ∷ []; lengths = table.lengths ++ q i ∷ [] };
    })

-- The records behind what the text and the table already hold.
push_records_lem :
    (data_ : Bytes) (spans : List Span) (front back : Bytes) (table : RecordTable)
    → InData data_ spans
    → length (padded_text (texts data_ spans)) ≤ length back
    → length front + length back < u64_mod
    → let out =
        push_records data_ spans (length front) (record { text = front ++ back; table = table }) in
      ((rest : Bytes) × (out.text ≡ (front ++ padded_text (texts data_ spans)) ++ rest))
      × (out.table.offset ≡ table.offset ++ offsets_of (length front) (texts data_ spans))
      × (out.table.lengths ≡ table.lengths ++ lengths_of (texts data_ spans))
unfolding texts padded_text offsets_of lengths_of InData
push_records_lem data_ [] front back table inside room small =
    unfold push_records in
    (
      (back, ap (λ t. t ++ back) (sym (append-nil front))),
      sym (append-nil table.offset),
      sym (append-nil table.lengths),
    )
push_records_lem data_ (s ∷ spans) front back table (within, fits, inside) room small =
    let w : Bytes = window data_ s.off s.len in
    let all = length-append (padded w) (padded_text (texts data_ spans)) in
    let (same, low) = padded_length-padded data_ s within fits in
    let (rest, text, left) = copy_record_lem data_ s front back within fits (omega arith) in
    let next : Bytes = front ++ padded w in
    let at : length next ≡ length front + length (padded w) = length-append front (padded w) in
    let cursor : (length front + padded_length s.len) % u64_mod ≡ length next = omega arith in
    let after : RecordTable = record {
      offset = table.offset ++ length front ∷ [];
      lengths = table.lengths ++ length (padded w) ∷ [];
    } in
    let ((behind, texts_), offsets, lens) =
      push_records_lem data_ spans next rest after inside (omega arith) (omega arith) in
    rw
      (push_records_step data_ s spans (length front) (length next) (length (padded w))
        (front ++ back) (next ++ rest) table cursor low text)
      (
        (behind, texts_ ∙ ap (λ t. t ++ behind) (append_assoc front (padded w) _)),
        offsets
            ∙ append_assoc table.offset _ _
            ∙ ap (λ n. table.offset ++ length front ∷ offsets_of n (texts data_ spans)) at,
        lens ∙ append_assoc table.lengths _ _,
      )

InData-append :
    (data_ : Bytes) (xs ys : List Span)
    → InData data_ xs
    → InData data_ ys
    → InData data_ (xs ++ ys)
unfolding InData
InData-append data_ [] ys h k = k
InData-append data_ (s ∷ xs) ys (a, b, h) k = (a, b, InData-append data_ xs ys h k)

span_of-InData :
    (data_ : Bytes) (pos end : ℕ)
    → pos ≤ end
    → end ≤ length data_
    → end + 64 < u32_mod
    → InData data_ (span_of data_ pos end)
unfolding InData span_of
span_of-InData data_ pos end h p small =
    let k = shrink is_terminator data_ pos (end - pos) in
    let below : k ≤ end - pos = shrink-le is_terminator data_ pos (end - pos) in
    elim (Bool-cases (ltb min_record_bytes k)) [
      | inl long ↦ rw long (omega arith, omega arith, tt)
      | inr short ↦ rw short tt
    ]

scan_loop-InData :
    (data_ : Bytes) (stop fuel pos : ℕ)
    → stop ≤ length data_
    → stop + 64 < u32_mod
    → InData data_ (scan_loop data_ stop fuel pos)
scan_loop-InData data_ stop zero pos fits small = unfold scan_loop InData in tt
scan_loop-InData data_ stop (suc fuel) pos fits small = elim (Bool-cases (ltb pos stop)) [
  | inr done ↦ rw (scan_loop_end data_ stop (suc fuel) pos (ground arith)) (unfold InData in tt)
  | inl more ↦
      let (on, within) = snap_on data_ stop fits pos (ground arith) in
      rw (scan_loop_step data_ stop fuel pos (ground arith)) (
        InData-append data_ _ _
          (span_of-InData data_ pos (snap data_ stop newline pos) (omega arith) (omega arith)
            (omega arith))
          (scan_loop-InData data_ stop fuel (snap data_ stop newline pos) fits small))
]

length-padded_text : (ls : List Bytes) → length (padded_text (records_of ls)) ≤ 65 * total_length ls
unfolding records_of padded_text total_length
length-padded_text [] = omega arith
length-padded_text (l ∷ ls) =
    let r : Bytes = rtrim is_terminator l in
    let below = rtrim-le is_terminator l in
    let rest = length-padded_text ls in
    let all = length-append (padded r) (padded_text (records_of ls)) in
    let one = length-padded r in
    elim (Bool-cases (ltb min_record_bytes (length r))) [
      | inl long ↦ let six : 5 < length r = ground arith in rw long (omega arith)
      | inr short ↦ rw short (omega arith)
    ]

resize_lem :
    (allocate : ℕ → Option Bytes) (n : ℕ)
    → ((size : ℕ) → (fresh : Bytes) × (allocate size ≡ some fresh) × (length fresh ≡ size))
    → 0 < n
    → n + 63 < u64_mod
    → (n ≤ length (resize allocate n)) × (length (resize allocate n) ≤ n + 63)
unfolding resize
resize_lem allocate n memory more small =
    let size = (n + 63) % u64_mod / 64 * 64 in
    let (fresh, gives, len) = memory size in
    let some_ : (n == 0) ≡ false = ground arith in rw (some_, gives) (omega arith, omega arith)

-- With memory at hand and an input below 4 GiB less a padding, the text of the loader begins with
-- the padded records of the input, and its table holds where each of them begins and how long it
-- is.
pub reference_loader-padded_text :
    (allocate : ℕ → Option Bytes) (data_ : Bytes) (size : ℕ)
    → size ≤ length data_
    → size + 64 < u32_mod
    → ((n : ℕ) → (fresh : Bytes) × (allocate n ≡ some fresh) × (length fresh ≡ n))
    → let out = reference_loader allocate data_ size in
      let rs = records (take size data_) in
      (take (length (padded_text rs)) out.text ≡ padded_text rs)
      × (out.table.offset ≡ offsets_of 0 rs)
      × (out.table.lengths ≡ lengths_of rs)
unfolding reference_loader
reference_loader-padded_text allocate data_ size fits small memory =
    let spans = scan_range data_ 0 size in
    let rs = records (take size data_) in
    let same : texts data_ spans ≡ rs = scan_range-records data_ size fits (omega arith) in
    let inside : InData data_ spans =
      unfold scan_range in scan_loop-InData data_ size (size - 0 + 1) 0 fits small in
    let short : length (padded_text rs) ≤ 65 * length (take size data_) =
      unfold records in
      omega (
        arith,
        length-padded_text (lines (take size data_)),
        total_length-lines (take size data_),
      ) in
    let cut : length (take size data_) ≤ size = omega (arith, length-take size data_) in
    let total : length (padded_text (texts data_ spans)) ≡ length (padded_text rs) =
      ap (λ t. length (padded_text t)) same in
    let sum = padded_sum_lem data_ 0 spans inside (omega arith) in
    let n = (padded_sum 0 spans + 64) % u64_mod in
    let (enough, most) = resize_lem allocate n memory (omega arith) (omega arith) in
    let ((behind, text), offsets, lens) =
      push_records_lem data_ spans [] (resize allocate n) (record { offset = []; lengths = [] })
        inside (omega arith) (omega arith) in
    (
      ap (take (length (padded_text rs))) (text ∙ ap (λ t. padded_text t ++ behind) same)
          ∙ take_append_length (padded_text rs) behind,
      offsets ∙ ap (offsets_of 0) same,
      lens ∙ ap lengths_of same,
    )
