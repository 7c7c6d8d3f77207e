-- ===== src/Extraction/Sum.antt =====
-- src/common.h: what a run of feeds adds to the sink.
use mathlib.Core.List.{Perm, Permᴰ}
use mathlib.Core.Logic.{∥∥₁_elim}
use mathlib.Core.Path.{subst, fun_ext}
use mathlib.Core.HLevel.{×_prop}
use native.Mathlib.Nat.{ℕ_set}
use jsonstreambench.Prelude.{
  ℕ, zero, suc, ◌+◌, ◌%◌, ◌≤◌, ◌<◌, ◌≡◌, refl, ap, ◌∙◌, sym, Bool, true, false, List, [], ◌∷◌, ◌++◌,
  arith, none, some, Bytes, length, take, map, u64_mod, append_assoc, length-append, append-nil,
  if◌then◌else◌,
}
use jsonstreambench.Extraction.{
  Extraction, no_extraction, normalize, hash, record_trace, feed, merge,
}

-- Values fed one after another.
pub feed_all : List Bytes → Extraction → Extraction
feed_all [] e = e
feed_all (v ∷ vs) e = feed_all vs (feed v e)

-- The two fields by which the engines are compared.
pub record SameSums (a b : Extraction) : Type 0 where
  pub sum : a.sum ≡ b.sum
  pub matches : a.matches ≡ b.matches

pub SameSums-refl : (a : Extraction) → SameSums a a
SameSums-refl a = record { sum = refl; matches = refl }

feed_all-SameSums :
    (vs : List Bytes) (a b : Extraction) → SameSums a b → SameSums (feed_all vs a) (feed_all vs b)
unfolding feed_all feed
feed_all-SameSums [] a b h = h
feed_all-SameSums (v ∷ vs) a b h = feed_all-SameSums vs (feed v a) (feed v b) (ground arith)

feed_comm : (v w : Bytes) (e : Extraction) → SameSums (feed v (feed w e)) (feed w (feed v e))
unfolding feed
feed_comm v w e = omega arith

feed_all-Permᴰ :
    {vs ws : List Bytes} → Permᴰ vs ws → (e : Extraction) → SameSums (feed_all vs e) (feed_all ws e)
unfolding feed_all
feed_all-Permᴰ Permᴰ.nil e = SameSums-refl e
feed_all-Permᴰ (Permᴰ.cons {a = v} {l₁ = vs} {l₂ = ws} p ps) e =
    rw (← p) (feed_all-Permᴰ ps (feed v e))
feed_all-Permᴰ (Permᴰ.swap {a = v} {b = w} {l = vs} p q) e =
    rw (← p, ← q) (feed_all-SameSums vs _ _ (feed_comm w v e))
feed_all-Permᴰ (Permᴰ.trans p q) e =
    let first = feed_all-Permᴰ p e in
    let second = feed_all-Permᴰ q e in
    record { sum = first.sum ∙ second.sum; matches = first.matches ∙ second.matches }

-- Two runs that feed the same values in different orders agree on the sum and on the count.
pub feed_all-Perm :
    {vs ws : List Bytes} (e : Extraction)
    → Perm vs ws
    → ((feed_all vs e).sum ≡ (feed_all ws e).sum)
      × ((feed_all vs e).matches ≡ (feed_all ws e).matches)
feed_all-Perm e p =
    ∥∥₁_elim p (×_prop (ℕ_set _ _) (ℕ_set _ _))
      (λ d. let s = feed_all-Permᴰ d e in (s.sum, s.matches))

trace_full :
    (vs seen : List Bytes) (e : Extraction)
    → e.trace ≡ some seen
    → e.trace_limit ≤ length seen
    → (feed_all vs e).trace ≡ some seen
unfolding feed_all
trace_full [] seen e t h = t
trace_full (v ∷ vs) seen e t h =
    trace_full vs seen (feed v e) (unfold feed record_trace in ground arith)
      (unfold feed record_trace in h)

feed_room :
    (v : Bytes) (seen : List Bytes) (k : ℕ) (e : Extraction)
    → e.trace ≡ some seen
    → length seen + suc k ≡ e.trace_limit
    → ((feed v e).trace ≡ some (seen ++ normalize v ∷ []))
      × (length (seen ++ normalize v ∷ []) + k ≡ (feed v e).trace_limit)
unfolding feed record_trace
feed_room v seen k e t h = (ground arith, omega (arith, length-append seen (normalize v ∷ [])))

-- Feeding goes on from what the trace holds, while there is room.
feed_all-trace_from :
    (vs seen : List Bytes) (k : ℕ) (e : Extraction)
    → e.trace ≡ some seen
    → length seen + k ≡ e.trace_limit
    → (feed_all vs e).trace ≡ some (seen ++ take k (map normalize vs))
unfolding feed_all
feed_all-trace_from vs seen zero e t h =
    trace_full vs seen e t (omega arith) ∙ ap some (sym (append-nil seen))
feed_all-trace_from [] seen (suc k) e t h = t ∙ ap some (sym (append-nil seen))
feed_all-trace_from (v ∷ vs) seen (suc k) e t h =
    let (held, room) = feed_room v seen k e t h in
    feed_all-trace_from vs (seen ++ normalize v ∷ []) k (feed v e) held room
    ∙ ap some (append_assoc seen (normalize v ∷ []) (take k (map normalize vs)))

-- A sink whose trace is empty at first records the first values that it is fed, normalized, up to
-- the limit.
pub feed_all-trace :
    (vs : List Bytes) (e : Extraction)
    → e.trace ≡ some []
    → (feed_all vs e).trace ≡ some (take e.trace_limit (map normalize vs))
feed_all-trace vs e t = feed_all-trace_from vs [] e.trace_limit e t (omega arith)

-- A sink whose fields are in range: what `extraction{}` is, and what every operation leaves.
pub record IsWord (e : Extraction) : Type 0 where
  pub sum : e.sum < u64_mod
  pub matches : e.matches < u64_mod

-- An operation that adds `s` to the sum and `m` to the count, and no trace.
pub record Adds (f : Extraction → Extraction) (s m : ℕ) : Type 0 where
  pub sum : (e : Extraction) → (f e).sum % u64_mod ≡ (e.sum + s) % u64_mod
  pub matches : (e : Extraction) → (f e).matches % u64_mod ≡ (e.matches + m) % u64_mod
  pub word : (e : Extraction) → IsWord e → IsWord (f e)
  pub quiet : (e : Extraction) → e.trace ≡ none → (f e).trace ≡ none
  pub limit : (e : Extraction) → (f e).trace_limit ≡ e.trace_limit

pub feed-Adds : (v : Bytes) → Adds (feed v) (hash (normalize v)) 1
unfolding feed record_trace
feed-Adds v = record {
  sum = λ e. omega arith;
  matches = λ e. omega arith;
  word = λ e h. omega arith;
  quiet = λ e h. ground arith;
  limit = λ e. refl;
}

pub id-Adds : Adds (λ e. e) 0 0
id-Adds = record {
  sum = λ e. omega arith;
  matches = λ e. omega arith;
  word = λ e h. h;
  quiet = λ e h. h;
  limit = λ e. refl;
}

pub compose-Adds :
    {f g : Extraction → Extraction} {s t m n : ℕ}
    → Adds f s m
    → Adds g t n
    → Adds (λ e. g (f e)) (s + t) (m + n)
compose-Adds {f} a b = record {
  sum = λ e. omega (arith, a.sum e, b.sum (f e));
  matches = λ e. omega (arith, a.matches e, b.matches (f e));
  word = λ e h. b.word (f e) (a.word e h);
  quiet = λ e h. b.quiet (f e) (a.quiet e h);
  limit = λ e. b.limit (f e) ∙ a.limit e;
}

pub merge-Adds : (o : Extraction) → Adds (λ e. merge e o) o.sum o.matches
unfolding merge
merge-Adds o = record {
  sum = λ e. omega arith;
  matches = λ e. omega arith;
  word = λ e h. omega arith;
  quiet = λ e h. h;
  limit = λ e. refl;
}

-- What an operation adds is what it leaves of an empty sink.
pub canonical-Adds :
    {f : Extraction → Extraction} {s m : ℕ}
    → Adds f s m
    → Adds f (f no_extraction).sum (f no_extraction).matches
canonical-Adds a = record {
  sum = λ e. omega (arith, a.sum e, a.sum no_extraction);
  matches = λ e. omega (arith, a.matches e, a.matches no_extraction);
  word = a.word;
  quiet = a.quiet;
  limit = a.limit;
}

pub Adds-ext :
    {f g : Extraction → Extraction} {s m : ℕ}
    → ((e : Extraction) → f e ≡ g e)
    → Adds f s m
    → Adds g s m
Adds-ext {s} {m} h a = subst (λ k. Adds k s m) (fun_ext h) a

-- A branch adds what the side taken adds.
pub if-Adds :
    (b : Bool) (f g : Extraction → Extraction)
    → (s : ℕ) × (m : ℕ) × Adds f s m
    → (s : ℕ) × (m : ℕ) × Adds g s m
    → (s : ℕ) × (m : ℕ) × Adds (λ out. if b then f out else g out) s m
if-Adds true f g a b = a
if-Adds false f g a b = b
