-- ===== src/Extraction.antt =====
-- src/common.h, `struct extraction`: the sink that both engines feed, and its normalization.
pub mod Sum
pub mod Token
use Prim.Native.Nat.{bit_xor}
use jsonstreambench.Prelude.{
  ℕ, zero, suc, ◌+◌, ◌-◌, ◌*◌, ◌%◌, Bool, true, false, ◌&&◌, ◌||◌, not, List, [], ◌∷◌, ◌++◌, ◌≡◌,
  refl, Option, none, some, arith, Bytes, codes, byte_at, if◌then◌else◌, ltb, leb, ◌==◌, length,
  take, u64_mod,
}
use jsonstreambench.Trim.{shrink}

pub record Extraction : Type 0 where
  pub sum : ℕ  -- uint64_t
  pub matches : ℕ  -- uint64_t
  pub trace : Option (List Bytes)  -- `none` is the null pointer
  pub trace_limit : ℕ

-- `extraction{}`.
abbrev pub no_extraction : Extraction
no_extraction = record { sum = 0; matches = 0; trace = none; trace_limit = 0 }

unfoldable pub is_ws : ℕ → Bool
is_ws c = c == b' ' || c == b'\t' || c == b'\n' || c == b'\r'

-- `while (!s.empty() && is_ws(s.front())) s.remove_prefix(1)`.
unfoldable pub trim_front : Bytes → Bytes
trim_front [] = []
trim_front (c ∷ s) = if is_ws c then trim_front s else c ∷ s

unfoldable pub trim : Bytes → Bytes
trim s = let t = trim_front s in take (shrink is_ws t 0 (length t)) t

-- `s.back()` and `s.remove_suffix(1)` of a view that is not empty.
unfoldable pub back : Bytes → ℕ
back s = byte_at s (length s - 1)

unfoldable pub remove_suffix : Bytes → Bytes
remove_suffix s = take (length s - 1) s

unfoldable pub is_empty : Bytes → Bool
is_empty [] = true
is_empty (c ∷ s) = false

unfoldable pub trim_token : Bytes → Bytes
trim_token s =
    let t = trim s in if not (is_empty t) && back t == b',' then trim (remove_suffix t) else t

unfoldable pub is_quoted : Bytes → Bool
unfolding back
is_quoted s = leb 2 (length s) && byte_at s 0 == b'"' && back s == b'"'

remove_prefix : Bytes → Bytes
remove_prefix [] = []
remove_prefix (c ∷ s) = s

unfoldable pub normalize : Bytes → Bytes
unfolding remove_prefix
normalize s = let t = trim_token s in if is_quoted t then remove_suffix (remove_prefix t) else t

-- One round of FNV-1a in uint64_t.
hash_step : ℕ → ℕ → ℕ
hash_step h c = bit_xor h c * 1099511628211 % u64_mod

hash_from : ℕ → Bytes → ℕ
hash_from h [] = h
hash_from h (c ∷ s) = hash_from (hash_step h c) s

unfoldable pub hash : Bytes → ℕ
unfolding hash_from hash_step
hash = hash_from 1469598103934665603

-- `if (trace && trace->size() < trace_limit) trace->emplace_back(v)`.
unfoldable pub record_trace : ℕ → Bytes → Option (List Bytes) → Option (List Bytes)
record_trace limit v none = none
record_trace limit v (some seen) =
    if ltb (length seen) limit then some (seen ++ v ∷ []) else some seen

unfoldable pub feed : Bytes → Extraction → Extraction
feed raw out =
    let v = normalize raw in
    record {
      sum = (out.sum + hash v) % u64_mod;
      matches = (out.matches + 1) % u64_mod;
      trace = record_trace out.trace_limit v out.trace;
      trace_limit = out.trace_limit;
    }

unfoldable pub merge : Extraction → Extraction → Extraction
merge out o = record out {
  sum = (out.sum + o.sum) % u64_mod;
  matches = (out.matches + o.matches) % u64_mod;
}

string_with_comma : normalize (codes " \"ru\" ,\n") ≡ codes "ru"
unfolding normalize trim_token trim trim_front shrink is_ws is_quoted remove_suffix back is_empty
string_with_comma = refl
