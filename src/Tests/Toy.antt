-- ===== src/Tests/Toy.antt =====
-- A small instance of the On-Demand API: a document is its bytes, every key leads back to the text,
-- and a text that begins with a bracket is not an object.
use jsonstreambench.Prelude.{ℕ, [], ◌∷◌, map, Bytes, codes, byte_at, if◌then◌else◌, ◌==◌}
use jsonstreambench.Lines.{newline}
use jsonstreambench.Lines.Split.{documents}
use jsonstreambench.QueryId.{bytes_eq}
use jsonstreambench.Ondemand.{Outcome, ok, err, JsonType, Api}

abbrev as_object : Bytes → Outcome Bytes
as_object s = if byte_at s 0 == b'[' then err 7 else ok s

abbrev find_key : Bytes → Bytes → Outcome Bytes
find_key s key = ok (if bytes_eq key (codes "type") then codes "PushEvent" else s)

-- A text without its line feeds.
abbrev pub strip : Bytes → Bytes
strip [] = []
strip (c ∷ s) = if c == newline then strip s else c ∷ strip s

abbrev pub toy : Api
toy = record {
  Document = Bytes;
  Value = Bytes;
  Object = Bytes;
  Array = Bytes;
  Double = ℕ;
  document_error = λ d. 0;
  document_type = λ d. ok JsonType.array;
  document_object = as_object;
  document_array = λ d. ok d;
  document_find = find_key;
  value_object = as_object;
  value_array = λ v. ok v;
  value_find = find_key;
  fields = λ o. (ok (codes "lang"), o) ∷ [];
  object_find = find_key;
  elements = λ a. map (λ d. ok d) (documents a);
  type_of = λ v. ok JsonType.string;
  get_string = λ v. ok v;
  get_double = λ v. err 9;
  raw_json_token = λ v. v;
  raw_json = λ v. ok v;
  minify = λ v. ok (strip v);
  render = λ d. [];
  iterate = λ s. ok s;
  iterate_many = λ threaded s batch format. (0, map (λ d. d) (documents s));
}
