-- ===== src/Ondemand.antt =====
-- The part of simdjson's On-Demand API that src/simdjson_engine.cpp and src/cujson_baseline call.
-- The library is not part of the repository: its types and operations are a parameter.
use jsonstreambench.Prelude.{ℕ, List, Bool, Bytes}
use jsonstreambench.ParseMany.{StreamFormat}

-- `simdjson_result`: a value, or an error code that is not `SUCCESS`.
pub data Outcome (A : Type 0) : Type 0 where
  ok : A → Outcome A
  err : ℕ → Outcome A

-- A method called on a `simdjson_result` hands an error on.
infixl 5 ◌>>=◌
abbrev pub ◌>>=◌ : {A B : Type 0} → Outcome A → (A → Outcome B) → Outcome B
ok a >>= f = f a
err e >>= f = err e

pub data JsonType : Type 0 where
  array object number string boolean null : JsonType

-- A `Document` is one that a stream hands out, or that `iterate` returns. A field is its unescaped
-- key and its value; an element of an array may be an error.
pub record Api : Type 1 where
  pub Document : Type 0
  pub Value : Type 0
  pub Object : Type 0
  pub Array : Type 0
  pub Double : Type 0
  pub document_error : Document → ℕ  -- `doc.get(ref)`; 0 for `SUCCESS`
  pub document_type : Document → Outcome JsonType
  pub document_object : Document → Outcome Object
  pub document_array : Document → Outcome Array
  pub document_find : Document → Bytes → Outcome Value
  pub value_object : Value → Outcome Object
  pub value_array : Value → Outcome Array
  pub value_find : Value → Bytes → Outcome Value
  pub fields : Object → List (Outcome Bytes × Value)
  pub object_find : Object → Bytes → Outcome Value
  pub elements : Array → List (Outcome Value)
  pub type_of : Value → Outcome JsonType
  pub get_string : Value → Outcome Bytes
  pub get_double : Value → Outcome Double
  pub raw_json_token : Value → Bytes
  pub raw_json : Value → Outcome Bytes
  pub minify : Bytes → Outcome Bytes
  pub render : Double → Bytes  -- `snprintf` with `%.17g`
  pub iterate : Bytes → Outcome Document
  pub iterate_many : Bool → Bytes → ℕ → StreamFormat → ℕ × List Document
