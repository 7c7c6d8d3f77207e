-- ===== src/Driver/Options/Lists.antt =====
-- src/main.cpp, `parse_args`: what a list of thread counts on the command line is read as.
use jsonstreambench.Prelude.{
  ℕ, zero, suc, ◌+◌, ◌-◌, ◌*◌, ◌/◌, ◌%◌, ◌≤◌, ◌<◌, ◌≡◌, refl, ap, ◌∙◌, sym, true, false, List, [],
  ◌∷◌, ◌++◌, append_assoc, append-nil, arith, Bytes, codes, if◌then◌else◌, ltb, leb, ◌==◌, u64_mod,
  Bool-cases, inl, inr,
}
use jsonstreambench.QueryId.{bytes_eq}
use jsonstreambench.Driver.Options.{
  Options, read_digits, read_sign, read_number, strtoull, tokens, push_threads, argument,
  parse_args,
}

-- The decimal digits of a number, with fuel.
unfoldable pub decimal_from : ℕ → ℕ → Bytes
decimal_from zero n = []
decimal_from (suc fuel) n =
    let front = decimal_from fuel (n / 10) in
    (if ltb n 10 then [] else front) ++ (b'0' + n % 10) ∷ []

unfoldable pub decimal : ℕ → Bytes
unfolding decimal_from
decimal n = decimal_from (suc n) n

-- Decimal numbers with commas between them.
unfoldable pub comma_rest : List ℕ → Bytes
comma_rest [] = []
comma_rest (t ∷ ts) = b',' ∷ (decimal t ++ comma_rest ts)

unfoldable pub comma_list : List ℕ → Bytes
unfolding comma_rest
comma_list [] = []
comma_list (t ∷ ts) = decimal t ++ comma_rest ts

abbrev pub AreWords : List ℕ → Type 0
AreWords [] = Unit
AreWords (t ∷ ts) = (t < u64_mod) × AreWords ts

abbrev AreDigits : Bytes → Type 0
AreDigits [] = Unit
AreDigits (c ∷ s) = (b'0' ≤ c) × (c ≤ b'9') × AreDigits s

AreDigits-append : (s t : Bytes) → AreDigits s → AreDigits t → AreDigits (s ++ t)
AreDigits-append [] t h k = k
AreDigits-append (c ∷ s) t (lo, hi, h) k = (lo, hi, AreDigits-append s t h k)

decimal_from-AreDigits : (fuel n : ℕ) → AreDigits (decimal_from fuel n)
unfolding decimal_from
decimal_from-AreDigits zero n = tt
decimal_from-AreDigits (suc fuel) n =
    let last : AreDigits ((b'0' + n % 10) ∷ []) = (omega arith, omega arith, tt) in
    elim (Bool-cases (ltb n 10)) [
      | inl one ↦ rw one last
      | inr more ↦ rw more (
          AreDigits-append (decimal_from fuel (n / 10)) _ (decimal_from-AreDigits fuel (n / 10))
            last)
    ]

-- A digit behind digits.
read_digits_last :
    (m c : ℕ) (s : Bytes)
    → AreDigits s
    → b'0' ≤ c
    → c ≤ b'9'
    → read_digits m (s ++ c ∷ []) ≡ read_digits m s * 10 + (c - b'0')
unfolding read_digits
read_digits_last m c [] h lo hi = ground arith
read_digits_last m c (d ∷ s) (dlo, dhi, h) lo hi =
    let from : leb 48 d ≡ true = ground arith in
    let to : leb d 57 ≡ true = ground arith in
    rw (from, to) (read_digits_last (m * 10 + (d - b'0')) c s h lo hi)

read_digits-decimal_from : (fuel n : ℕ) → n < fuel → read_digits 0 (decimal_from fuel n) ≡ n
unfolding decimal_from
read_digits-decimal_from zero n h = absurd (omega arith)
read_digits-decimal_from (suc fuel) n h = elim (Bool-cases (ltb n 10)) [
  | inl one ↦ rw one (
      read_digits_last 0 (48 + n % 10) [] tt (omega arith) (omega arith)
      ∙ unfold read_digits in ground arith)
  | inr more ↦
      let front = decimal_from fuel (n / 10) in
      rw more (
        read_digits_last 0 (48 + n % 10) front (decimal_from-AreDigits fuel (n / 10)) (omega arith)
          (omega arith)
        ∙ ap (λ t. t * 10 + (48 + n % 10 - 48))
            (read_digits-decimal_from fuel (n / 10) (ground arith))
        ∙ omega arith)
]

decimal-AreDigits : (n : ℕ) → AreDigits (decimal n)
unfolding decimal
decimal-AreDigits n = decimal_from-AreDigits (suc n) n

read_digits-decimal : (n : ℕ) → read_digits 0 (decimal n) ≡ n
unfolding decimal
read_digits-decimal n = read_digits-decimal_from (suc n) n (omega arith)

ends_some : (s : Bytes) (c : ℕ) → (d : ℕ) × (t : Bytes) × (s ++ c ∷ [] ≡ d ∷ t)
ends_some [] c = (c, [], refl)
ends_some (d ∷ s) c = (d, s ++ c ∷ [], refl)

decimal_some : (n : ℕ) → (d : ℕ) × (t : Bytes) × (decimal n ≡ d ∷ t)
unfolding decimal decimal_from
decimal_some n = ends_some (if ltb n 10 then [] else decimal_from n (n / 10)) (b'0' + n % 10)

-- Digits are read to their end, without a sign.
read_number-digits :
    (c : ℕ) (s : Bytes) → AreDigits (c ∷ s) → read_number (c ∷ s) ≡ (false, read_digits 0 (c ∷ s))
unfolding read_number read_sign
read_number-digits c s (lo, hi, h) =
    let blank : (c == b' ') ≡ false = ground arith in
    let tab : leb c 13 ≡ false = ground arith in
    let minus : (c == b'-') ≡ false = ground arith in
    let plus : (c == b'+') ≡ false = ground arith in
    let from : leb 9 c ≡ true = ground arith in rw (blank, from, tab, minus, plus) refl

strtoull-decimal : (n : ℕ) → n < u64_mod → strtoull (decimal n) ≡ n
unfolding strtoull
strtoull-decimal n small =
    let (d, t, shape) = decimal_some n in
    let digits : AreDigits (d ∷ t) = rw shape at (decimal-AreDigits n) in
    let value : read_digits 0 (d ∷ t) ≡ n = rw shape at (read_digits-decimal n) in
    let fits : leb u64_mod n ≡ false = ground arith in
    rw (shape, read_number-digits d t digits, value, fits) refl

-- A token grows by the digits in front.
tokens-digits : (tok s rest : Bytes) → AreDigits s → tokens tok (s ++ rest) ≡ tokens (tok ++ s) rest
unfolding tokens
tokens-digits tok [] rest h = ap (λ t. tokens t rest) (sym (append-nil tok))
tokens-digits tok (c ∷ s) rest (lo, hi, h) =
    let other : (c == b',') ≡ false = ground arith in
    rw other (
      tokens-digits (tok ++ c ∷ []) s rest h
      ∙ ap (λ t. tokens t rest) (append_assoc tok (c ∷ []) s))

tokens_end : (d : ℕ) (tok : Bytes) → tokens (d ∷ tok) [] ≡ (d ∷ tok) ∷ []
unfolding tokens
tokens_end d tok = refl

tokens_comma : (d : ℕ) (tok s : Bytes) → tokens (d ∷ tok) (b',' ∷ s) ≡ (d ∷ tok) ∷ tokens [] s
unfolding tokens
tokens_comma d tok s = refl

-- A number in front of a list, which is empty or begins with a comma.
tokens-decimal :
    (n : ℕ) (ts : List ℕ)
    → tokens [] (decimal n ++ comma_rest ts) ≡ decimal n ∷ tokens [] (comma_list ts)
unfolding comma_rest comma_list
tokens-decimal n ts =
    let (d, t, shape) = decimal_some n in
    tokens-digits [] (decimal n) (comma_rest ts) (decimal-AreDigits n) ∙ rw shape (rest d t ts)
  where
    rest :
        (d : ℕ) (t : Bytes) (ts : List ℕ)
        → tokens (d ∷ t) (comma_rest ts) ≡ (d ∷ t) ∷ tokens [] (comma_list ts)
    rest d t [] = unfold tokens in refl
    rest d t (u ∷ ts) = tokens_comma d t (decimal u ++ comma_rest ts)

push_threads-comma_list :
    (ts : List ℕ) (threads : List ℕ)
    → AreWords ts
    → push_threads (tokens [] (comma_list ts)) threads ≡ threads ++ ts
unfolding push_threads
push_threads-comma_list [] threads h = unfold tokens comma_list in sym (append-nil threads)
push_threads-comma_list (t ∷ ts) threads (small, h) =
    let split : tokens [] (comma_list (t ∷ ts)) ≡ decimal t ∷ tokens [] (comma_list ts) =
      unfold comma_list in tokens-decimal t ts in
    let toks = tokens [] (comma_list ts) in
    ap (λ all. push_threads all threads) split
    ∙ ap (λ n. push_threads toks (threads ++ n ∷ [])) (strtoull-decimal t small)
    ∙ push_threads-comma_list ts (threads ++ t ∷ []) h
    ∙ append_assoc threads (t ∷ []) ts

-- --threads with decimal numbers below 2 ^ 64 and commas between them appends these numbers to
-- the thread counts, and the arguments behind it are read on.
pub parse_args-threads :
    (ts : List ℕ) (args : List Bytes) (o : Options)
    → AreWords ts
    → parse_args (codes "--threads" ∷ comma_list ts ∷ args) o
      ≡ parse_args args (record o { threads = o.threads ++ ts })
unfolding parse_args argument bytes_eq
parse_args-threads ts args o h =
    ap (λ threads. parse_args args (record o { threads = threads }))
      (push_threads-comma_list ts o.threads h)
