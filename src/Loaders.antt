-- ===== src/Loaders.antt =====
-- src/loaders.h: the tables of padded records that Pison reads. `offs` and `lens`, which are pushed
-- together, are one list of spans here. Memory that `posix_memalign` returns is a parameter,
-- `allocate`: the bytes it holds, or nothing. A write behind the end of a buffer is left out.
pub mod Scan
pub mod Chunks
pub mod Fast
pub mod Records
pub mod Padding
pub mod Layout
use jsonstreambench.Prelude.{
  ℕ, zero, suc, ◌+◌, ◌-◌, ◌*◌, ◌/◌, ◌%◌, Bool, ◌||◌, List, [], ◌∷◌, ◌++◌, Option, none, some, map,
  Bytes, length, set, replicate, window, if◌then◌else◌, ltb, leb, ◌==◌, u64_mod,
}
use jsonstreambench.Trim.{shrink}
use jsonstreambench.Lines.{newline, memchr}

abbrev pub u32_mod : ℕ
u32_mod = 4294967296

-- One record of `offs` and `lens`.
pub record Span : Type 0 where
  pub off : ℕ
  pub len : ℕ

pub record RecordTable : Type 0 where
  pub offset : List ℕ
  pub lengths : List ℕ

pub record LoadedRecords : Type 0 where
  pub text : Bytes
  pub table : RecordTable

-- `kMinRecordBytes`.
abbrev pub min_record_bytes : ℕ
min_record_bytes = 5

-- `aligned_buffer::resize`: `(n + 63) & ~63` bytes, or none if `n` is 0 or no memory is left.
unfoldable pub resize : (ℕ → Option Bytes) → ℕ → Bytes
resize allocate n =
    if n == 0
    then []
    else elim (allocate ((n + 63) % u64_mod / 64 * 64)) [ some fresh ↦ fresh | none ↦ [] ]

-- `memcpy` and `memset`: the bytes are written from a position on.
unfoldable pub blit : Bytes → ℕ → Bytes → Bytes
blit [] pos source = []
blit (c ∷ t) zero [] = c ∷ t
blit (c ∷ t) zero (d ∷ source) = d ∷ blit t zero source
blit (c ∷ t) (suc pos) source = c ∷ blit t pos source

-- Behind the first line feed from the guess on, or the end.
unfoldable pub behind_newline : Bytes → ℕ → ℕ → ℕ
behind_newline data_ size guess = elim (memchr (window data_ guess (size - guess)) newline) [
  | some k ↦ guess + k + 1
  | none ↦ size
]

-- The bound of chunk `t`.
unfoldable pub bound_at : Bytes → ℕ → ℕ → ℕ → ℕ
bound_at data_ size threads t =
    let raw = size / threads * t in behind_newline data_ size (if leb size raw then size else raw)

-- `bounds[t]` and the `n` behind it, the last of which is `size`.
unfoldable pub bounds_from : Bytes → ℕ → ℕ → ℕ → ℕ → List ℕ
bounds_from data_ size threads t zero = size ∷ []
bounds_from data_ size threads t (suc n) =
    bound_at data_ size threads t ∷ bounds_from data_ size threads (suc t) n

-- The second loop: no bound is below the one before it.
unfoldable pub raise : ℕ → List ℕ → List ℕ
raise prev [] = []
raise prev (b ∷ bounds) =
    let here = if ltb b prev then prev else b in let rest = raise here bounds in here ∷ rest

unfoldable pub chunk_bounds : Bytes → ℕ → ℕ → List ℕ
chunk_bounds data_ size threads = 0 ∷ raise 0 (bounds_from data_ size threads 1 (threads - 1))

unfoldable pub is_terminator : ℕ → Bool
is_terminator c = c == b'\n' || c == b'\r'

-- The body of the scan: the record of the line `[pos, end)`, if it is long enough.
unfoldable pub span_of : Bytes → ℕ → ℕ → List Span
span_of data_ pos end =
    let trimmed = shrink is_terminator data_ pos (end - pos) in
    if ltb min_record_bytes trimmed then record { off = pos; len = trimmed % u32_mod } ∷ [] else []

-- The loop, with fuel.
unfoldable pub scan_loop : Bytes → ℕ → ℕ → ℕ → List Span
scan_loop data_ stop zero pos = []
scan_loop data_ stop (suc fuel) pos =
    let rest : List Span = elim (memchr (window data_ pos (stop - pos)) newline) [
      | some k ↦ span_of data_ pos (pos + k + 1) ++ scan_loop data_ stop fuel (pos + k + 1)
      | none ↦ span_of data_ pos stop ++ scan_loop data_ stop fuel stop
    ] in
    if ltb pos stop then rest else []

-- Each round moves `pos` on, so `stop - begin + 1` rounds suffice.
unfoldable pub scan_range : Bytes → ℕ → ℕ → List Span
scan_range data_ begin stop = scan_loop data_ stop (stop - begin + 1) begin

unfoldable pub padded_length : ℕ → ℕ
padded_length len = (len + (64 - len % 64)) % u64_mod

-- The first `parallel_for`: thread `t` scans from its bound to the next one.
unfoldable pub scan_chunks : Bytes → List ℕ → List (List Span)
scan_chunks data_ (begin ∷ stop ∷ bounds) =
    scan_range data_ begin stop ∷ scan_chunks data_ (stop ∷ bounds)
scan_chunks data_ _ = []

-- `bytes`: the padded lengths of a chunk, summed in a `size_t`.
unfoldable pub padded_sum : ℕ → List Span → ℕ
padded_sum total [] = total
padded_sum total (s ∷ spans) = padded_sum ((total + padded_length s.len) % u64_mod) spans

unfoldable pub count : List (List Span) → ℕ
count [] = 0
count (spans ∷ chunks) = length spans + count chunks

unfoldable pub boundary_scan : Bytes → ℕ → ℕ → ℕ
boundary_scan data_ size threads =
    let n = if ltb threads 1 then 1 else threads in
    count (scan_chunks data_ (chunk_bounds data_ size n))

-- The two writes of a record: its bytes, and `d` up to its padded length.
unfoldable pub copy_record : Bytes → Span → ℕ → Bytes → Bytes
copy_record data_ s cursor text =
    let padded = padded_length s.len in
    blit (blit text cursor (window data_ s.off s.len)) (cursor + s.len)
      (replicate (padded - s.len) b'd')

-- The loop of `reference_loader`.
unfoldable pub push_records : Bytes → List Span → ℕ → LoadedRecords → LoadedRecords
push_records data_ [] cursor out = out
push_records data_ (s ∷ spans) cursor out =
    let padded = padded_length s.len in
    push_records data_ spans ((cursor + padded) % u64_mod) (record {
      text = copy_record data_ s cursor out.text;
      table = record {
        offset = out.table.offset ++ cursor ∷ [];
        lengths = out.table.lengths ++ (padded % u32_mod) ∷ [];
      };
    })

unfoldable pub reference_loader : (ℕ → Option Bytes) → Bytes → ℕ → LoadedRecords
reference_loader allocate data_ size =
    let spans = scan_range data_ 0 size in
    push_records data_ spans 0 (record {
      text = resize allocate ((padded_sum 0 spans + 64) % u64_mod);
      table = record { offset = []; lengths = [] };
    })

-- The loop of one thread of `fast_loader`, from its cursor and index on.
unfoldable pub set_records : Bytes → List Span → ℕ → ℕ → LoadedRecords → LoadedRecords
set_records data_ [] cursor idx out = out
set_records data_ (s ∷ spans) cursor idx out =
    let padded = padded_length s.len in
    set_records data_ spans ((cursor + padded) % u64_mod) (suc idx) (record {
      text = copy_record data_ s cursor out.text;
      table = record {
        offset = set out.table.offset idx cursor;
        lengths = set out.table.lengths idx (padded % u32_mod);
      };
    })

-- `chunk_start`: the sums of the chunks before each chunk, and of all of them.
unfoldable pub chunk_starts : ℕ → List (List Span) → List ℕ
chunk_starts start [] = start ∷ []
chunk_starts start (spans ∷ chunks) =
    start ∷ chunk_starts ((start + padded_sum 0 spans) % u64_mod) chunks

-- `index_start`, the same of the numbers of records. They count lines, so they do not wrap.
unfoldable pub index_starts : ℕ → List (List Span) → List ℕ
index_starts start [] = start ∷ []
index_starts start (spans ∷ chunks) = start ∷ index_starts (start + length spans) chunks

-- The last element of a table of starts.
unfoldable pub last_of : List ℕ → ℕ
last_of [] = 0
last_of (x ∷ []) = x
last_of (x ∷ y ∷ xs) = last_of (y ∷ xs)

-- The second `parallel_for`: each thread writes its own records and its own part of the table.
unfoldable pub set_chunks :
    Bytes → List (List Span) → List ℕ → List ℕ → LoadedRecords → LoadedRecords
set_chunks data_ (spans ∷ chunks) (cursor ∷ cursors) (idx ∷ indices) out =
    set_chunks data_ chunks cursors indices (set_records data_ spans cursor idx out)
set_chunks data_ _ _ _ out = out

unfoldable pub fast_loader : (ℕ → Option Bytes) → Bytes → ℕ → ℕ → LoadedRecords
fast_loader allocate data_ size threads =
    let n = if ltb threads 1 then 1 else threads in
    let chunks = scan_chunks data_ (chunk_bounds data_ size n) in
    let chunk_start = chunk_starts 0 chunks in
    let index_start = index_starts 0 chunks in
    let records = last_of index_start in
    set_chunks data_ chunks chunk_start index_start (record {
      text = resize allocate ((last_of chunk_start + 64) % u64_mod);
      table = record { offset = replicate records 0; lengths = replicate records 0 };
    })
