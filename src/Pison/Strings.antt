-- ===== src/Pison/Strings.antt =====
-- JSON strings as RFC 8259 writes them, beside `feed_decoded` of src/pison_engine.cpp: the pieces of
-- a body, their text and what they stand for.
use jsonstreambench.Prelude.{
  ℕ, ◌/◌, ◌%◌, ◌≤◌, ◌<◌, ◌≡◌, ◌⊎◌, refl, Bool, true, false, List, [], ◌∷◌, ◌++◌, map, Option, none,
  some, inl, inr, arith, Bytes, if◌then◌else◌, ltb, ◌==◌, Bool-cases, Option-cases,
}
use jsonstreambench.Pison.Unicode.{hex_digit, utf8_form}

-- The byte that a letter behind a backslash stands for.
unfoldable pub letter_byte : ℕ → Option ℕ
letter_byte e =
    if e == b'"'
    then some b'"'
    else if e == 92
    then some 92
    else if e == b'/'
    then some b'/'
    else if e == b'b'
    then some 8
    else if e == b'f'
    then some 12
    else if e == b'n'
    then some 10
    else if e == b'r'
    then some 13
    else if e == b't'
    then some 9
    else none

-- A byte as it is, a letter behind a backslash, or a code point with four digits in one case.
pub data Piece : Type 0 where
  plain : ℕ → Piece
  letter : ℕ → Piece
  unicode : Bool → ℕ → Piece

unfoldable pub write_piece : Piece → Bytes
write_piece (plain c) = c ∷ []
write_piece (letter e) = 92 ∷ e ∷ []
write_piece (unicode upper cp) =
    let digit = hex_digit upper in
    92
    ∷ b'u'
    ∷ digit (cp / 4096)
    ∷ digit (cp / 256 % 16)
    ∷ digit (cp / 16 % 16)
    ∷ digit (cp % 16)
    ∷ []

unfoldable pub bytes_of : Option ℕ → Bytes
bytes_of none = []
bytes_of (some c) = c ∷ []

unfoldable pub piece_bytes : Piece → Bytes
unfolding bytes_of
piece_bytes (plain c) = c ∷ []
piece_bytes (letter e) = bytes_of (letter_byte e)
piece_bytes (unicode upper cp) = utf8_form cp

-- A surrogate is half a code point and no piece of its own.
abbrev pub IsPiece : Piece → Type 0
IsPiece (plain c) = (32 ≤ c) × ((c == b'"') ≡ false) × ((c == 92) ≡ false)
IsPiece (letter e) = (c : ℕ) × (letter_byte e ≡ some c)
IsPiece (unicode upper cp) = (cp < 55296) ⊎ ((57344 ≤ cp) × (cp < 65536))

abbrev pub ArePieces : List Piece → Type 0
ArePieces [] = Unit
ArePieces (p ∷ ps) = IsPiece p × ArePieces ps

unfoldable pub written : List Piece → Bytes
unfolding write_piece
written [] = []
written (p ∷ ps) = write_piece p ++ written ps

unfoldable pub meaning : List Piece → Bytes
unfolding piece_bytes
meaning [] = []
meaning (p ∷ ps) = piece_bytes p ++ meaning ps

-- The letter that a byte may be escaped with.
unfoldable pub escape_letter : ℕ → Option ℕ
escape_letter c =
    if c == b'"'
    then some b'"'
    else if c == 92
    then some 92
    else if c == 8
    then some b'b'
    else if c == 12
    then some b'f'
    else if c == 10
    then some b'n'
    else if c == 13
    then some b'r'
    else if c == 9
    then some b't'
    else none

unfoldable pub piece_as : ℕ → Option ℕ → Piece
piece_as c (some e) = letter e
piece_as c none = if ltb c 32 then unicode false c else plain c

-- How a byte has to be written: quotes, backslashes and control characters are escaped.
unfoldable pub piece_of : ℕ → Piece
unfolding piece_as
piece_of c = piece_as c (escape_letter c)

unfoldable pub escape : Bytes → Bytes
unfolding written
escape t = written (map piece_of t)

escape_letter-letter_byte : (c e : ℕ) → escape_letter c ≡ some e → letter_byte e ≡ some c
unfolding escape_letter letter_byte
escape_letter-letter_byte c e h = ground arith

escape_letter-none : (c : ℕ) → escape_letter c ≡ none → ((c == b'"') ≡ false) × ((c == 92) ≡ false)
unfolding escape_letter
escape_letter-none c h = (ground arith, ground arith)

-- A byte is escaped to a piece that stands for it.
piece_of_lem : (c : ℕ) → IsPiece (piece_of c) × (piece_bytes (piece_of c) ≡ c ∷ [])
unfolding piece_of piece_as piece_bytes bytes_of utf8_form
piece_of_lem c = elim (Option-cases (escape_letter c)) [
  | inr (e, escaped) ↦
      let back = escape_letter-letter_byte c e escaped in rw escaped ((c, back), rw back refl)
  | inl plain_ ↦
      let (no_quote, no_slash) = escape_letter-none c plain_ in
      elim (Bool-cases (ltb c 32)) [
        | inl low ↦
            let ascii : ltb c 128 ≡ true = ground arith in
            let as_unicode : piece_of c ≡ unicode false c = rw (plain_, low) refl in
            rw as_unicode (inl (ground arith), rw ascii refl)
        | inr high ↦
            let as_plain : piece_of c ≡ plain c = rw (plain_, high) refl in
            rw as_plain ((ground arith, no_quote, no_slash), refl)
      ]
]

pub map-piece_of-ArePieces : (t : Bytes) → ArePieces (map piece_of t)
map-piece_of-ArePieces [] = tt
map-piece_of-ArePieces (c ∷ t) = ((piece_of_lem c).0, map-piece_of-ArePieces t)

pub meaning-map-piece_of : (t : Bytes) → meaning (map piece_of t) ≡ t
unfolding meaning
meaning-map-piece_of [] = refl
meaning-map-piece_of (c ∷ t) = rw ((piece_of_lem c).1, meaning-map-piece_of t) refl
