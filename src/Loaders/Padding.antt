-- ===== src/Loaders/Padding.antt =====
-- src/loaders.h: one padded record, and what writing it leaves in the text.
use jsonstreambench.Prelude.{
  ℕ, ◌+◌, ◌-◌, ◌%◌, ◌≤◌, ◌<◌, ◌≡◌, refl, ap, ◌∙◌, sym, List, [], ◌∷◌, ◌++◌, arith, Bytes, length,
  drop, replicate, window, length-window, u64_mod, append_assoc, length-append, length-replicate,
  length-drop,
}
use jsonstreambench.Loaders.{Span, u32_mod, blit, copy_record, padded_length}

-- A record up to the next multiple of 64 bytes, one byte at least.
unfoldable pub padded : Bytes → Bytes
padded r = r ++ replicate (64 - length r % 64) b'd'

unfoldable pub padded_text : List Bytes → Bytes
padded_text [] = []
padded_text (r ∷ rs) = padded r ++ padded_text rs

-- Where the records begin, from a position on, and how long they are.
unfoldable pub offsets_of : ℕ → List Bytes → List ℕ
offsets_of cursor [] = []
offsets_of cursor (r ∷ rs) = cursor ∷ offsets_of (cursor + length (padded r)) rs

unfoldable pub lengths_of : List Bytes → List ℕ
lengths_of [] = []
lengths_of (r ∷ rs) = length (padded r) ∷ lengths_of rs

pub length-padded : (r : Bytes) → length (padded r) ≡ length r + (64 - length r % 64)
unfolding padded
length-padded r =
    length-append r (replicate (64 - length r % 64) b'd')
    ∙ ap (λ n. length r + n) (length-replicate (64 - length r % 64) b'd')

-- Every padded record takes a multiple of 64 bytes, and more than its own.
pub length-padded_multiple :
    (r : Bytes) → (length (padded r) % 64 ≡ 0) × (length r < length (padded r))
length-padded_multiple r = omega (arith, length-padded r)

blit_behind :
    (front back source : Bytes)
    → blit (front ++ back) (length front) source ≡ front ++ blit back 0 source
unfolding blit
blit_behind [] back source = refl
blit_behind (c ∷ front) back source = ap (λ t. c ∷ t) (blit_behind front back source)

blit_front :
    (back source : Bytes)
    → length source ≤ length back
    → blit back 0 source ≡ source ++ drop (length source) back
unfolding blit
blit_front [] [] h = refl
blit_front [] (d ∷ source) h = absurd (omega arith)
blit_front (c ∷ back) [] h = refl
blit_front (c ∷ back) (d ∷ source) h = ap (λ t. d ∷ t) (blit_front back source (omega arith))

-- A write behind some bytes, where there is room for it.
blit_lem :
    (front back source : Bytes)
    → length source ≤ length back
    → blit (front ++ back) (length front) source ≡ (front ++ source) ++ drop (length source) back
blit_lem front back source h =
    blit_behind front back source
    ∙ ap (λ t. front ++ t) (blit_front back source h)
    ∙ sym (append_assoc front source _)

pub copy_record_lem :
    (data_ : Bytes) (s : Span) (front back : Bytes)
    → s.off + s.len ≤ length data_
    → s.len + 64 < u32_mod
    → length (padded (window data_ s.off s.len)) ≤ length back
    → (rest : Bytes) × (copy_record data_ s (length front) (front ++ back)
        ≡ (front ++ padded (window data_ s.off s.len)) ++ rest)
      × (length (padded (window data_ s.off s.len)) + length rest ≡ length back)
unfolding copy_record padded padded_length
copy_record_lem data_ s front back within small room =
    let w : Bytes = window data_ s.off s.len in
    let len : length w ≡ s.len = length-window data_ s.off s.len within in
    let pad : Bytes = replicate (64 - length w % 64) b'd' in
    let fits : length (w ++ pad) ≤ length back = room in
    let pad_len : length pad ≡ 64 - length w % 64 = length-replicate (64 - length w % 64) b'd' in
    let all : length (w ++ pad) ≡ length w + length pad = length-append w pad in
    let left : Bytes = drop (length w) back in
    let left_len : length left ≡ length back - length w = length-drop (length w) back in
    let count : (s.len + (64 - s.len % 64)) % u64_mod - s.len ≡ 64 - length w % 64 = omega arith in
    let at : length front + s.len ≡ length (front ++ w) = omega (arith, length-append front w) in
    (
      drop (length pad) left,
      rw (count, at, blit_lem front back w (omega arith))
          (blit_lem (front ++ w) left pad (omega arith)
            ∙ ap (λ t. t ++ drop (length pad) left) (append_assoc front w pad)),
      omega (arith, length-drop (length pad) left),
    )

-- The padded length of a record, if it fits in 64 bits, is a multiple of 64; it is longer than
-- the record, by 64 bytes at most.
pub padded_length-multiple :
    (len : ℕ)
    → len + 64 < u64_mod
    → (padded_length len % 64 ≡ 0) × (len < padded_length len) × (padded_length len ≤ len + 64)
unfolding padded_length
padded_length-multiple len small = (omega arith, omega arith, omega arith)
