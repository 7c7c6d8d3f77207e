-- ===== src/Pison/Unicode.antt =====
-- src/pison_engine.cpp, `feed_decoded`: the escape of a code point beside its digits and its UTF-8
-- form, said without bits.
use jsonstreambench.Prelude.{
  ℕ, ◌+◌, ◌-◌, ◌*◌, ◌/◌, ◌%◌, ◌<◌, ◌≡◌, refl, Bool, true, false, [], ◌∷◌, arith, Bytes,
  if◌then◌else◌, ltb, leb, Bool-cases, inl, inr,
}
use jsonstreambench.Prelude.Bits.{mask_six, Fills-16, Fills-32, Fills-64}
use jsonstreambench.Pison.{hex_step, utf8}

-- A hexadecimal digit, in upper or in lower case.
unfoldable pub hex_digit : Bool → ℕ → ℕ
hex_digit upper d = if ltb d 10 then b'0' + d else (if upper then b'A' else b'a') + (d - 10)

-- The UTF-8 form of a code point below `2 ^ 16`.
unfoldable pub utf8_form : ℕ → Bytes
utf8_form cp =
    if ltb cp 128
    then cp ∷ []
    else if ltb cp 2048
    then (192 + cp / 64) ∷ (128 + cp % 64) ∷ []
    else (224 + cp / 4096) ∷ (128 + cp / 64 % 64) ∷ (128 + cp % 64) ∷ []

hex_step-hex_digit :
    (cp d : ℕ) (upper : Bool) → d < 16 → hex_step cp (hex_digit upper d) ≡ cp * 16 + d
unfolding hex_step hex_digit
hex_step-hex_digit cp d upper h = elim (Bool-cases (ltb d 10)) [
  | inl low ↦
      let lo : leb 48 (48 + d) ≡ true = ground arith in
      let hi : leb (48 + d) 57 ≡ true = ground arith in
      let e : 48 + d - 48 ≡ d = omega arith in rw (low, lo, hi, e) (Fills-16 cp d h)
  | inr high ↦ letter upper high
]
  where
    letter : (upper : Bool) → ltb d 10 ≡ false → hex_step cp (hex_digit upper d) ≡ cp * 16 + d
    letter true high =
        let v = 65 + (d - 10) in
        let lo : leb 48 v ≡ true = ground arith in
        let hi : leb v 57 ≡ false = ground arith in
        let not_lower : leb 97 v ≡ false = ground arith in
        let from : leb 65 v ≡ true = ground arith in
        let to : leb v 70 ≡ true = ground arith in
        let e : v - 65 + 10 ≡ d = ground arith in
        rw (high, lo, hi, not_lower, from, to, e) (Fills-16 cp d h)
    letter false high =
        let v = 97 + (d - 10) in
        let lo : leb 48 v ≡ true = ground arith in
        let hi : leb v 57 ≡ false = ground arith in
        let from : leb 97 v ≡ true = ground arith in
        let to : leb v 102 ≡ true = ground arith in
        let e : v - 97 + 10 ≡ d = ground arith in rw (high, lo, hi, from, to, e) (Fills-16 cp d h)

-- The four digits of a code point are read back.
pub hex_steps-hex_digits :
    (cp : ℕ) (upper : Bool)
    → cp < 65536
    → let digit = hex_digit upper in
      hex_step
        (hex_step
          (hex_step (hex_step 0 (digit (cp / 4096))) (digit (cp / 256 % 16)))
          (digit (cp / 16 % 16)))
        (digit (cp % 16))
      ≡ cp
hex_steps-hex_digits cp upper h =
    rw
      (
        hex_step-hex_digit 0 (cp / 4096) upper (omega arith),
        hex_step-hex_digit (0 * 16 + cp / 4096) (cp / 256 % 16) upper (omega arith),
        hex_step-hex_digit ((0 * 16 + cp / 4096) * 16 + cp / 256 % 16) (cp / 16 % 16) upper
            (omega arith),
        hex_step-hex_digit (((0 * 16 + cp / 4096) * 16 + cp / 256 % 16) * 16 + cp / 16 % 16)
            (cp % 16) upper (omega arith),
      )
      (omega arith)

pub utf8-utf8_form : (cp : ℕ) → cp < 65536 → utf8 cp ≡ utf8_form cp
unfolding utf8 utf8_form
utf8-utf8_form cp h = elim (Bool-cases (ltb cp 128)) [
  | inl one ↦ rw one refl
  | inr more ↦ elim (Bool-cases (ltb cp 2048)) [
    | inl two ↦
        rw
          (
            more,
            two,
            mask_six cp,
            Fills-32 6 (cp / 64) (ground arith),
            Fills-64 2 (cp % 64) (omega arith),
          )
          refl
    | inr three ↦
        rw
          (
            more,
            three,
            mask_six cp,
            mask_six (cp / 64),
            Fills-16 14 (cp / 4096) (omega arith),
            Fills-64 2 (cp / 64 % 64) (omega arith),
            Fills-64 2 (cp % 64) (omega arith),
          )
          refl
  ]
]
