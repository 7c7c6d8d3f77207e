-- ===== src/Pison/Decode.antt =====
-- src/pison_engine.cpp, `feed_decoded`: the decoding of strings.
use jsonstreambench.Prelude.{
  ℕ, zero, suc, ◌+◌, ◌≤◌, ◌<◌, ◌≡◌, refl, ap, ◌∙◌, sym, Bool, true, false, List, [], ◌∷◌, ◌++◌, map,
  some, arith, Bytes, byte_at, ltb, leb, ◌==◌, length, length-append, append_assoc,
}
use jsonstreambench.Pison.{code_point, utf8, decode_loop, decode_string, unescape}
use jsonstreambench.Pison.Unicode.{hex_steps-hex_digits, utf8-utf8_form}
use jsonstreambench.Pison.Strings.{
  letter_byte, Piece, plain, letter, unicode, write_piece, piece_bytes, IsPiece, ArePieces, written,
  meaning, piece_of, escape, map-piece_of-ArePieces, meaning-map-piece_of,
}

letter_lem : (c e : ℕ) → letter_byte e ≡ some c → (unescape e ≡ c) × ((e == b'u') ≡ false)
unfolding letter_byte unescape
letter_lem c e h = ground arith

byte_at-append :
    (front rest : Bytes) (k : ℕ) → byte_at (front ++ rest) (length front + k) ≡ byte_at rest k
byte_at-append [] rest k = let e : 0 + k ≡ k = omega arith in rw e refl
byte_at-append (c ∷ front) rest k =
    let e : suc (length front) + k ≡ suc (length front + k) = omega arith in
    rw e (byte_at-append front rest k)

plain_step :
    (fuel : ℕ) (s : Bytes) (i : ℕ)
    → i + 1 < length s
    → (byte_at s i == 92) ≡ false
    → decode_loop (suc fuel) s i ≡ byte_at s i ∷ decode_loop fuel s (i + 1)
unfolding decode_loop
plain_step fuel s i h p =
    let more : ltb (i + 1) (length s) ≡ true = ground arith in rw (more, p) refl

escape_step :
    (fuel : ℕ) (s : Bytes) (i : ℕ)
    → i + 2 < length s
    → (byte_at s i == 92) ≡ true
    → (byte_at s (i + 1) == b'u') ≡ false
    → decode_loop (suc fuel) s i ≡ unescape (byte_at s (i + 1)) ∷ decode_loop fuel s (i + 2)
unfolding decode_loop
escape_step fuel s i h p q =
    let more : ltb (i + 1) (length s) ≡ true = ground arith in
    let room : leb (length s) (i + 2) ≡ false = ground arith in rw (more, p, room, q) refl

unicode_step :
    (fuel : ℕ) (s : Bytes) (i : ℕ)
    → i + 6 < length s
    → (byte_at s i == 92) ≡ true
    → (byte_at s (i + 1) == b'u') ≡ true
    → decode_loop (suc fuel) s i ≡ utf8 (code_point s (i + 1)) ++ decode_loop fuel s (i + 6)
unfolding decode_loop
unicode_step fuel s i h p q =
    let more : ltb (i + 1) (length s) ≡ true = ground arith in
    let room : leb (length s) (i + 2) ≡ false = ground arith in
    let digits : ltb (i + 1 + 4) (length s) ≡ true = ground arith in
    rw (more, p, room, q, digits) refl

decode_end : (fuel : ℕ) (s : Bytes) (i : ℕ) → length s ≤ i + 1 → decode_loop fuel s i ≡ []
unfolding decode_loop
decode_end zero s i h = refl
decode_end (suc fuel) s i h =
    let done : ltb (i + 1) (length s) ≡ false = ground arith in rw done refl

-- A round of the loop reads a piece behind any text, if something is behind the piece.
module _ (fuel : ℕ) (front rest : Bytes) (some_rest : 1 ≤ length rest) where
  abbrev Reads : Piece → Type 0
  Reads p =
      let s = front ++ (write_piece p ++ rest) in
      decode_loop (suc fuel) s (length front)
      ≡ piece_bytes p ++ decode_loop fuel s (length front + length (write_piece p))

  piece_byte :
      (p : Piece) (k : ℕ)
      → byte_at (front ++ (write_piece p ++ rest)) (length front + k)
        ≡ byte_at (write_piece p ++ rest) k
  piece_byte p k = byte_at-append front (write_piece p ++ rest) k

  start :
      (p : Piece)
      → byte_at (front ++ (write_piece p ++ rest)) (length front)
        ≡ byte_at (write_piece p ++ rest) 0
  start p =
      let e : length front + 0 ≡ length front = omega arith in
      ap (byte_at (front ++ (write_piece p ++ rest))) (sym e) ∙ piece_byte p 0

  long :
      (p : Piece)
      → length (front ++ (write_piece p ++ rest))
        ≡ length front + (length (write_piece p) + length rest)
  long p =
      omega (arith, length-append front (write_piece p ++ rest), length-append (write_piece p) rest)

  plain-Reads : (c : ℕ) → IsPiece (plain c) → Reads (plain c)
  unfolding write_piece piece_bytes
  plain-Reads c (printable, no_quote, no_slash) =
      let s = front ++ (c ∷ rest) in
      plain_step fuel s (length front) (omega (arith, long (plain c)))
        (rw (start (plain c)) no_slash)
      ∙ ap (λ b. b ∷ decode_loop fuel s (length front + 1)) (start (plain c))

  letter-Reads : (e : ℕ) → IsPiece (letter e) → Reads (letter e)
  unfolding write_piece piece_bytes
  letter-Reads e (c, stands) =
      let s = front ++ (92 ∷ e ∷ rest) in
      let (same, other) = letter_lem c e stands in
      rw stands (
        escape_step fuel s (length front) (omega (arith, long (letter e)))
          (rw (start (letter e)) refl) (rw (piece_byte (letter e) 1) other)
        ∙ ap (λ b. unescape b ∷ decode_loop fuel s (length front + 2)) (piece_byte (letter e) 1)
        ∙ ap (λ b. b ∷ decode_loop fuel s (length front + 2)) same)

  code_point_lem :
      (upper : Bool) (cp : ℕ)
      → cp < 65536
      → code_point (front ++ (write_piece (unicode upper cp) ++ rest)) (length front + 1) ≡ cp
  unfolding code_point
  code_point_lem upper cp small =
      let p = unicode upper cp in
      let i = length front in
      let two : i + 1 + 1 ≡ i + 2 = omega arith in
      let three : i + 1 + 2 ≡ i + 3 = omega arith in
      let four : i + 1 + 3 ≡ i + 4 = omega arith in
      let five : i + 1 + 4 ≡ i + 5 = omega arith in
      rw (two, three, four, five, piece_byte p 2, piece_byte p 3, piece_byte p 4, piece_byte p 5)
        (unfold write_piece in hex_steps-hex_digits cp upper small)

  unicode-Reads : (upper : Bool) (cp : ℕ) → IsPiece (unicode upper cp) → Reads (unicode upper cp)
  unfolding write_piece piece_bytes
  unicode-Reads upper cp scalar =
      let p = unicode upper cp in
      let s = front ++ (write_piece p ++ rest) in
      let small : cp < 65536 = ground arith in
      unicode_step fuel s (length front) (omega (arith, long p)) (rw (start p) refl)
        (rw (piece_byte p 1) refl)
      ∙ ap (λ k. utf8 k ++ decode_loop fuel s (length front + 6)) (code_point_lem upper cp small)
      ∙ ap (λ b. b ++ decode_loop fuel s (length front + 6)) (utf8-utf8_form cp small)

  piece-Reads : (p : Piece) → IsPiece p → Reads p
  piece-Reads (plain c) h = plain-Reads c h
  piece-Reads (letter e) h = letter-Reads e h
  piece-Reads (unicode upper cp) h = unicode-Reads upper cp h

-- The text of pieces, and the quote that ends the string.
closed : List Piece → Bytes
closed ps = written ps ++ b'"' ∷ []

closed_cons : (p : Piece) (ps : List Piece) → closed (p ∷ ps) ≡ write_piece p ++ closed ps
unfolding closed written
closed_cons p ps = append_assoc (write_piece p) (written ps) (b'"' ∷ [])

closed_long : (ps : List Piece) → 1 ≤ length (closed ps)
unfolding closed
closed_long ps = omega (arith, length-append (written ps) (b'"' ∷ []))

decode_loop-closed :
    (fuel : ℕ) (front : Bytes) (ps : List Piece)
    → ArePieces ps
    → length ps ≤ fuel
    → decode_loop fuel (front ++ closed ps) (length front) ≡ meaning ps
unfolding meaning
decode_loop-closed fuel front [] h le =
    decode_end fuel (front ++ closed []) (length front)
      (unfold closed written in omega (arith, length-append front (b'"' ∷ [])))
decode_loop-closed zero front (p ∷ ps) h le = absurd (omega arith)
decode_loop-closed (suc fuel) front (p ∷ ps) (one, rest) le =
    let next = front ++ write_piece p in
    let apart : closed (p ∷ ps) ≡ write_piece p ++ closed ps = closed_cons p ps in
    let joined : front ++ (write_piece p ++ closed ps) ≡ next ++ closed ps =
      sym (append_assoc front (write_piece p) (closed ps)) in
    ap (λ t. decode_loop (suc fuel) (front ++ t) (length front)) apart
    ∙ piece-Reads fuel front (closed ps) (closed_long ps) p one
    ∙ ap (λ t. piece_bytes p ++ decode_loop fuel t (length front + length (write_piece p))) joined
    ∙ ap (λ k. piece_bytes p ++ decode_loop fuel (next ++ closed ps) k)
        (sym (length-append front (write_piece p)))
    ∙ ap (λ t. piece_bytes p ++ t) (decode_loop-closed fuel next ps rest (omega arith))

length-write_piece : (p : Piece) → 1 ≤ length (write_piece p)
unfolding write_piece
length-write_piece (plain c) = omega arith
length-write_piece (letter e) = omega arith
length-write_piece (unicode upper cp) = omega arith

length-written : (ps : List Piece) → length ps ≤ length (written ps)
unfolding written
length-written [] = omega arith
length-written (p ∷ ps) =
    omega
      (arith, length-written ps, length-append (write_piece p) (written ps), length-write_piece p)

-- A JSON string, its quotes included, is decoded to what its pieces stand for: bytes as they are,
-- the eight letters behind a backslash, and code points below 2 ^ 16 with four digits in either
-- case, in UTF-8; surrogates are left out.
pub decode_string-written :
    (ps : List Piece) → ArePieces ps → decode_string (b'"' ∷ (written ps ++ b'"' ∷ [])) ≡ meaning ps
unfolding decode_string closed
decode_string-written ps h =
    decode_loop-closed (length (b'"' ∷ closed ps)) (b'"' ∷ []) ps h
      (omega (arith, length-written ps, length-append (written ps) (b'"' ∷ [])))

-- A text in which quotes, backslashes and the control characters below 32 are escaped, by a
-- letter or else by four digits, is decoded to itself.
pub decode_string-escape : (t : Bytes) → decode_string (b'"' ∷ (escape t ++ b'"' ∷ [])) ≡ t
unfolding escape
decode_string-escape t =
    decode_string-written (map piece_of t) (map-piece_of-ArePieces t) ∙ meaning-map-piece_of t
