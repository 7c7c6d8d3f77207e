-- ===== src/Pison.antt =====
-- src/pison_engine.cpp and src/pison_engine.h: the workloads, and how a value of Pison's iterator is
-- fed into the sink. `number`, a parameter, is `strtod` with the rendering by `snprintf`: `none` where
-- `strtod` reads nothing.
pub mod Decode
pub mod Strings
pub mod Unicode
pub mod Queries
pub mod Stream
pub mod Additive
pub mod Agree
use Prim.Native.Nat.{bit_or, bit_and}
use jsonstreambench.Prelude.{
  ℕ, zero, suc, ◌+◌, ◌-◌, ◌*◌, ◌/◌, ◌%◌, Bool, true, false, ◌||◌, ◌&&◌, not, List, [], ◌∷◌, ◌++◌,
  Option, none, some, ◌≡◌, refl, Bytes, codes, byte_at, if◌then◌else◌, ltb, leb, ◌==◌, length,
}
use jsonstreambench.Extraction
use jsonstreambench.Extraction.{Extraction, trim_token, is_quoted}

pub data Workload : Type 0 where
  structure query decode : Workload

unfoldable pub workload_name : Workload → Bytes
workload_name structure = codes "structure"
workload_name query = codes "query"
workload_name decode = codes "decode"

-- `cp <<= 4`, and the bits of a hexadecimal digit; another byte sets none.
unfoldable pub hex_step : ℕ → ℕ → ℕ
hex_step cp h =
    let shifted = cp * 16 in
    if leb b'0' h && leb h b'9'
    then bit_or shifted (h - b'0')
    else if leb b'a' h && leb h b'f'
    then bit_or shifted (h - b'a' + 10)
    else if leb b'A' h && leb h b'F'
    then bit_or shifted (h - b'A' + 10)
    else shifted

-- The code point of the four bytes behind `i`.
unfoldable pub code_point : Bytes → ℕ → ℕ
code_point s i =
    hex_step
      (hex_step (hex_step (hex_step 0 (byte_at s (i + 1))) (byte_at s (i + 2))) (byte_at s (i + 3)))
      (byte_at s (i + 4))

-- The UTF-8 form of a code point below `2 ^ 16`.
unfoldable pub utf8 : ℕ → Bytes
utf8 cp =
    if ltb cp 128
    then cp ∷ []
    else if ltb cp 2048
    then bit_or 192 (cp / 64) ∷ bit_or 128 (bit_and cp 63) ∷ []
    else bit_or 224 (cp / 4096)
      ∷ bit_or 128 (bit_and (cp / 64) 63)
      ∷ bit_or 128 (bit_and cp 63)
      ∷ []

-- The escapes of one byte; any other byte stands for itself.
unfoldable pub unescape : ℕ → ℕ
unescape n =
    if n == b'n'
    then b'\n'
    else if n == b't'
    then b'\t'
    else if n == b'r'
    then b'\r'
    else if n == b'b'
    then 8
    else if n == b'f'
    then 12
    else n

-- The loop over the body of a string, with fuel: the bytes that it pushes from index `i` on.
unfoldable pub decode_loop : ℕ → Bytes → ℕ → Bytes
decode_loop zero s i = []
decode_loop (suc fuel) s i =
    let c = byte_at s i in
    let n = byte_at s (i + 1) in
    let plain = c ∷ decode_loop fuel s (i + 1) in
    let escaped = unescape n ∷ decode_loop fuel s (i + 2) in
    let unicode = utf8 (code_point s (i + 1)) ++ decode_loop fuel s (i + 6) in
    let cut = decode_loop fuel s (i + 2) in
    if ltb (i + 1) (length s)
    then if not (c == 92) || leb (length s) (i + 2)
      then plain
      else if n == b'u'
      then if ltb (i + 1 + 4) (length s) then unicode else cut
      else escaped
    else []

-- `length s` rounds suffice, since each of them moves on.
unfoldable pub decode_string : Bytes → Bytes
decode_string s = decode_loop (length s) s 1

unfoldable pub feed_decoded : (Bytes → Option Bytes) → Bytes → Extraction → Extraction
feed_decoded number raw out =
    let s = trim_token raw in
    if is_quoted s then Extraction.feed (decode_string s) out else elim (number s) [
      | some rendered ↦ Extraction.feed rendered out
      | none ↦ Extraction.feed s out
    ]

-- `take`, once the iterator has given a value.
unfoldable pub take_value : (Bytes → Option Bytes) → Workload → Bytes → Extraction → Extraction
take_value number decode v out = feed_decoded number v out
take_value number _ v out = Extraction.feed v out
