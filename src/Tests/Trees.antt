-- ===== src/Tests/Trees.antt =====
-- The queries of the simdjson engine on a parser of one kind of object, `{"lang": ...}`.
use jsonstreambench.Prelude.{
  ℕ, ◌≡◌, refl, [], ◌∷◌, Option, none, some, Bytes, codes, visit, if◌then◌else◌, Bool-cases, inl,
  inr, arith, ap, ◌∙◌,
}
use jsonstreambench.Extraction
use jsonstreambench.Extraction.{Extraction, no_extraction, normalize, hash}
use jsonstreambench.Extraction.Sum.{feed-Adds}
use jsonstreambench.QueryId.{twitter, bytes_eq}
use jsonstreambench.DomQueries.{Traits}
use jsonstreambench.DomQueries.Paths.{query_paths, select_all}
use jsonstreambench.Ondemand.{Outcome, ok, err, JsonType, Api}
use jsonstreambench.Simdjson.{query, of_value, run_query, take_value}
use jsonstreambench.Simdjson.Trees.{lookup, to_node}
use jsonstreambench.Simdjson.Trees.Reads.{Reads, value_of}
use jsonstreambench.Simdjson.Trees.Agree.{run_query-selected}

data Tree : Type 0 where
  leaf : Bytes → Tree
  person : Bytes → Tree

abbrev token : Tree → Bytes
token (leaf b) = b
token (person b) = codes "{"

abbrev object_of : Tree → Outcome Bytes
object_of (leaf b) = err 17
object_of (person b) = ok b

abbrev member_at : Bytes → Bytes → Outcome Tree
member_at b k = if bytes_eq (codes "lang") k then ok (leaf b) else err 19

abbrev find_at : Tree → Bytes → Outcome Tree
find_at (leaf b) k = err 17
find_at (person b) k = member_at b k

abbrev people : Api
people = record {
  Document = Tree;
  Value = Tree;
  Object = Bytes;
  Array = Bytes;
  Double = ℕ;
  document_error = λ d. 0;
  document_type = λ d. ok JsonType.object;
  document_object = object_of;
  document_array = λ d. err 17;
  document_find = find_at;
  value_object = object_of;
  value_array = λ v. err 17;
  value_find = find_at;
  fields = λ b. (ok (codes "lang"), leaf b) ∷ [];
  object_find = member_at;
  elements = λ a. [];
  type_of = λ v. ok JsonType.string;
  get_string = λ v. ok (token v);
  get_double = λ v. err 17;
  raw_json_token = token;
  raw_json = λ v. ok (token v);
  minify = λ v. ok v;
  render = λ d. [];
  iterate = λ s. ok (leaf s);
  iterate_many = λ threaded s batch format. (0, leaf s ∷ []);
}

abbrev get_at : Tree → Bytes → Option Tree
get_at (leaf b) k = none
get_at (person b) k = if bytes_eq (codes "lang") k then some (leaf b) else none

abbrev people_tree : Traits
people_tree = record {
  Node = Tree;
  obj_get = get_at;
  arr_at = λ n i. none;
  elements = λ n. [];
  feed = λ n out. Extraction.feed (token n) out;
}

abbrev same_tree : Tree → Tree
same_tree t = t

member_at_lem : (b k : Bytes) → to_node same_tree (value_of (member_at b k)) ≡ get_at (person b) k
member_at_lem b k = elim (Bool-cases (bytes_eq (codes "lang") k)) [
  | inl here ↦ rw here refl
  | inr absent ↦ rw absent refl
]

find_at_lem : (t : Tree) (k : Bytes) → to_node same_tree (value_of (find_at t k)) ≡ get_at t k
find_at_lem (leaf b) k = refl
find_at_lem (person b) k = member_at_lem b k

lookup_lem :
    (b k : Bytes) → to_node same_tree (lookup k ((codes "lang", leaf b) ∷ [])) ≡ get_at (person b) k
unfolding lookup
lookup_lem b k = elim (Bool-cases (bytes_eq (codes "lang") k)) [
  | inl here ↦ rw here refl
  | inr absent ↦ rw absent refl
]

object_at : (t : Tree) (o k : Bytes) → object_of t ≡ ok o → get_at (person o) k ≡ get_at t k
object_at (leaf b) o k e = absurd (ground arith)
object_at (person b) o k e = ap (λ c. get_at (person c) k) (ground arith)

no_object : (t : Tree) (c : ℕ) (k : Bytes) → object_of t ≡ err c → get_at t k ≡ none
no_object (leaf b) c k e = refl
no_object (person b) c k e = absurd (ground arith)

people_reads : Reads people people_tree query
unfolding lookup take_value
people_reads = record {
  node = same_tree;
  find = find_at_lem;
  object_find = λ v o k e. member_at_lem o k ∙ object_at v o k e;
  not_object = no_object;
  members = λ v o e. record {
    kvs = (codes "lang", leaf o) ∷ [];
    fields = refl;
    unique = (λ j h. refl, tt);
    found = λ k. lookup_lem o k ∙ object_at v o k e;
  };
  items = λ v a e. absurd (ground arith);
  no_elements = λ v c e. refl;
  no_index = λ v c i e. refl;
  feeds = λ v. record {
    sum = hash (normalize (token v));
    matches = 1;
    left = feed-Adds (token v);
    right = feed-Adds (token v);
  };
}

run_query-selected_example :
    let taken =
      (run_query people twitter (of_value people (person (codes "ru"))) query no_extraction).1 in
    let fed =
      visit people_tree.feed
        (select_all people_tree (query_paths twitter) (person (codes "ru")))
        no_extraction in
    (taken.sum ≡ fed.sum) × (taken.matches ≡ fed.matches)
unfolding people_reads
run_query-selected_example =
    run_query-selected people people_tree query people_reads twitter (person (codes "ru"))
