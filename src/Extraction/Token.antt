-- ===== src/Extraction/Token.antt =====
-- src/common.h: what `trim_token` and `normalize` leave of a token.
use jsonstreambench.Prelude.{
  ℕ, ◌-◌, ◌≡◌, refl, ap, ◌∙◌, sym, true, false, [], ◌∷◌, ◌++◌, arith, Bytes, byte_at, length,
  window, append_assoc, append-nil, length-append, take_all, take_append_length, ◌==◌,
}
use mathlib.Core.List.{concat-ne-nil}
use jsonstreambench.Trim.{window-shrink, rtrim, rtrim-append, rtrim_last, AllPass}
use jsonstreambench.Extraction.{
  is_ws, trim_front, trim, back, remove_suffix, is_empty, trim_token, is_quoted, normalize,
}

trim_eq : (s : Bytes) → trim s ≡ rtrim is_ws (trim_front s)
unfolding trim window
trim_eq s =
    let t = trim_front s in
    window-shrink is_ws t 0 (length t) (omega arith) ∙ ap (rtrim is_ws) (take_all _ t (omega arith))

trim_front-append : (pre s : Bytes) → AllPass is_ws pre → trim_front (pre ++ s) ≡ trim_front s
unfolding trim_front
trim_front-append [] s h = refl
trim_front-append (c ∷ pre) s (hc, hp) = rw hc (trim_front-append pre s hp)

-- A token as both engines mean it: it has a first and a last byte, neither of them white space, and
-- the last is no comma.
pub record IsToken (q : Bytes) : Type 0 where
  pub first : is_ws (byte_at q 0) ≡ false
  pub init : Bytes
  pub last : ℕ
  pub ends : q ≡ init ++ last ∷ []
  pub last_ws : is_ws last ≡ false
  pub last_comma : (last == b',') ≡ false

rtrim_token : (q post : Bytes) → IsToken q → AllPass is_ws post → rtrim is_ws (q ++ post) ≡ q
rtrim_token q post t h =
    rtrim-append is_ws q post h
    ∙ ap (rtrim is_ws) t.ends
    ∙ rtrim_last is_ws t.init t.last t.last_ws
    ∙ sym t.ends

trim_front_token : (q s : Bytes) → IsToken q → trim_front (q ++ s) ≡ q ++ s
unfolding trim_front
trim_front_token [] s t = absurd (concat-ne-nil t.last t.init (sym t.ends))
trim_front_token (c ∷ q) s t = rw t.first

byte_at-length : (s : Bytes) (c : ℕ) → byte_at (s ++ c ∷ []) (length s) ≡ c
byte_at-length [] c = refl
byte_at-length (d ∷ s) c = byte_at-length s c

length_last : (s : Bytes) (c : ℕ) → length (s ++ c ∷ []) - 1 ≡ length s
length_last s c = omega (arith, length-append s (c ∷ []))

back_last : (s : Bytes) (c : ℕ) → back (s ++ c ∷ []) ≡ c
unfolding back
back_last s c = rw (length_last s c) (byte_at-length s c)

remove_suffix_last : (s : Bytes) (c : ℕ) → remove_suffix (s ++ c ∷ []) ≡ s
unfolding remove_suffix
remove_suffix_last s c = rw (length_last s c) (take_append_length s (c ∷ []))

is_empty_last : (s : Bytes) (c : ℕ) → is_empty (s ++ c ∷ []) ≡ false
unfolding is_empty
is_empty_last [] c = refl
is_empty_last (d ∷ s) c = refl

-- White space round a token goes.
trim_around :
    (pre q post : Bytes)
    → IsToken q
    → AllPass is_ws pre
    → AllPass is_ws post
    → trim (pre ++ (q ++ post)) ≡ q
trim_around pre q post t hp hq =
    trim_eq (pre ++ (q ++ post))
    ∙ ap (rtrim is_ws) (trim_front-append pre (q ++ post) hp)
    ∙ ap (rtrim is_ws) (trim_front_token q post t)
    ∙ rtrim_token q post t hq

trim_around_comma :
    (pre q mid post : Bytes)
    → IsToken q
    → AllPass is_ws pre
    → AllPass is_ws post
    → trim (pre ++ (q ++ (mid ++ b',' ∷ post))) ≡ (q ++ mid) ++ b',' ∷ []
trim_around_comma pre q mid post t hp hq =
    trim_eq (pre ++ (q ++ (mid ++ b',' ∷ post)))
    ∙ ap (rtrim is_ws) (trim_front-append pre (q ++ (mid ++ b',' ∷ post)) hp)
    ∙ ap (rtrim is_ws) (trim_front_token q (mid ++ b',' ∷ post) t)
    ∙ ap (rtrim is_ws) (sym (simp append_assoc))
    ∙ rtrim-append is_ws ((q ++ mid) ++ b',' ∷ []) post hq
    ∙ rtrim_last is_ws (q ++ mid) b',' (unfold is_ws in refl)

back_token : (q : Bytes) (t : IsToken q) → back q ≡ t.last
back_token q t = ap back t.ends ∙ back_last t.init t.last

trim_token_plain :
    (pre q post : Bytes)
    → IsToken q
    → AllPass is_ws pre
    → AllPass is_ws post
    → trim_token (pre ++ (q ++ post)) ≡ q
unfolding trim_token
trim_token_plain pre q post t hp hq =
    ground (arith, trim_around pre q post t hp hq, back_token q t, t.last_comma)

trim_token_comma :
    (pre q mid post : Bytes)
    → IsToken q
    → AllPass is_ws pre
    → AllPass is_ws mid
    → AllPass is_ws post
    → trim_token (pre ++ (q ++ (mid ++ b',' ∷ post))) ≡ q
unfolding trim_token
trim_token_comma pre q mid post t hp hm hq =
    rw
      (
        trim_around_comma pre q mid post t hp hq,
        is_empty_last (q ++ mid) b',',
        back_last (q ++ mid) b',',
        remove_suffix_last (q ++ mid) b',',
      )
      (trim_around [] q mid t tt hm)

-- What may stand behind the token: white space, with one comma in it or none.
pub data Separator : Bytes → Type 0 where
  space : (post : Bytes) → AllPass is_ws post → Separator post
  comma :
      (mid post : Bytes) → AllPass is_ws mid → AllPass is_ws post → Separator (mid ++ b',' ∷ post)

pub trim_token-Separator :
    (pre q post : Bytes)
    → IsToken q
    → AllPass is_ws pre
    → Separator post
    → trim_token (pre ++ (q ++ post)) ≡ q
trim_token-Separator pre q post t hp (space _ hq) = trim_token_plain pre q post t hp hq
trim_token-Separator pre q _ t hp (comma mid post hm hq) =
    trim_token_comma pre q mid post t hp hm hq

-- White space before a token, and white space with at most one comma behind it, do not change
-- what it is normalized to.
pub normalize-Separator :
    (pre q post : Bytes)
    → IsToken q
    → AllPass is_ws pre
    → Separator post
    → normalize (pre ++ (q ++ post)) ≡ normalize q
unfolding normalize
normalize-Separator pre q post t hp s = rw (
  trim_token-Separator pre q post t hp s,
  ap trim_token (sym (append-nil q)) ∙ trim_token-Separator [] q [] t tt (space [] tt),
)

quoted-IsToken : (body : Bytes) → IsToken (b'"' ∷ (body ++ b'"' ∷ []))
unfolding is_ws
quoted-IsToken body = record {
  first = refl;
  init = b'"' ∷ body;
  last = b'"';
  ends = refl;
  last_ws = refl;
  last_comma = refl;
}

trim_token_quoted :
    (body : Bytes) → trim_token (b'"' ∷ (body ++ b'"' ∷ [])) ≡ b'"' ∷ (body ++ b'"' ∷ [])
trim_token_quoted body =
    ap trim_token (sym (append-nil (b'"' ∷ (body ++ b'"' ∷ []))))
    ∙ trim_token-Separator [] (b'"' ∷ (body ++ b'"' ∷ [])) [] (quoted-IsToken body) tt (space [] tt)

is_quoted_quoted : (body : Bytes) → is_quoted (b'"' ∷ (body ++ b'"' ∷ [])) ≡ true
unfolding is_quoted
is_quoted_quoted body = ground (arith, back_last (b'"' ∷ body) b'"', length-append body (b'"' ∷ []))

-- A quoted string is normalized to its body, whatever the body.
pub normalize_quoted : (body : Bytes) → normalize (b'"' ∷ (body ++ b'"' ∷ [])) ≡ body
unfolding normalize
normalize_quoted body =
    rw (trim_token_quoted body, is_quoted_quoted body, remove_suffix_last body b'"')
