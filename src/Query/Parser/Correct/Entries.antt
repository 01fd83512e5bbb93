-- ===== src/Query/Parser/Correct/Entries.antt =====
-- The meaning of one entry of a query, by its kind.
use kvdb_nodejs.Prelude.{
  and_true, ◌≡◌, refl, ap, ◌∙◌, Bool, true, false, ◌&&◌, Option, inl, inr, Bool-cases, Text,
  if◌then◌else◌, List, [], ◌∷◌, split,
}
use mathlib.Core.Path.{subst}
use kvdb_nodejs.Core.Failure.{Failure, Result, ok, err, Result-cases, ◌>>=◌}
use kvdb_nodejs.Query.Value.{Value, bool, array, Items, Fields}
use kvdb_nodejs.Query.Ast.{
  eq_op, FieldPath, QueryNode, cmp, match_all, Nodes, no_nodes, extract_value, evaluate_compare,
  some_element, evaluate_query, every_node, some_node,
}
use kvdb_nodejs.Query.Parser.{
  query_error, parse_segment, parse_segments, is_number, is_valid_segment, parse_path, EntryKind,
  and_key, or_key, nor_key, not_key, field_key, Operator, compare_operator, exists_operator,
  elem_match_operator, exists_node, plain_entry, object_entry, array_entry, plain_condition,
  object_condition,
}
use kvdb_nodejs.Query.Parser.Meaning.{
  is_ok, at_parsed, valid_object_entry, valid_array_entry, valid_object_condition,
  matches_object_entry, matches_array_entry, matches_object_condition, is_path, at_path, is_boolean,
  is_present, valid_plain_entry, valid_plain_condition, matches_plain_condition,
}
use kvdb_nodejs.Query.Parser.Correct.Combine.{
  Means, BranchesMean, Means-not, Means-branches, Means-elem_match,
}

failure_same {ℓ} : {A : Type ℓ} {e f : Failure} → ◌≡◌ {A = Result A} (err e) (err f) → e ≡ f
failure_same h = cc

err_same {ℓ κ} :
    {A : Type ℓ} {B : Type κ} (e f : Failure)
    → ◌≡◌ {A = Result A} (err e) (err f)
    → ◌≡◌ {A = Result B} (err e) (err f)
err_same e f h = ap err (failure_same h)

parse_segment-fails : (part : Text) (e : Failure) → parse_segment part ≡ err e → e ≡ query_error
unfolding parse_segment
parse_segment-fails part e h = elim (Bool-cases (is_number part)) [
  | inl y ↦ let bad : ok _ ≡ err e = rw y at h in cc
  | inr n ↦ elim (Bool-cases (is_valid_segment part)) [
    | inl y ↦ let bad : ok _ ≡ err e = rw (n, y) at h in cc
    | inr m ↦ let bad : err query_error ≡ err e = rw (n, m) at h in cc
  ]
]

parse_segments-fails :
    (parts : List Text) (e : Failure) → parse_segments parts ≡ err e → e ≡ query_error
unfolding parse_segments
parse_segments-fails [] e h = cc
parse_segments-fails (part ∷ parts) e h = elim (Result-cases (parse_segment part)) [
  | inr (f, y) ↦
      let same : err f ≡ err e = rw y at h in parse_segment-fails part e (y ∙ err_same f e same)
  | inl (s, y) ↦ elim (Result-cases (parse_segments parts)) [
    | inr (f, z) ↦
        let same : err f ≡ err e = rw (y, z) at h in parse_segments-fails parts e (z ∙ same)
    | inl (ss, z) ↦ let bad : ok _ ≡ err e = rw (y, z) at h in cc
  ]
]

pub parse_path-fails : (k : Text) (e : Failure) → parse_path k ≡ err e → e ≡ query_error
unfolding parse_path
parse_path-fails [] e h = cc
parse_path-fails (c ∷ t) e h = elim (Result-cases (parse_segments (split b'.' (c ∷ t)))) [
  | inr (f, z) ↦
      let same : err f ≡ err e = rw z at h in
      parse_segments-fails (split b'.' (c ∷ t)) e (z ∙ err_same f e same)
  | inl (ss, z) ↦ let bad : ok _ ≡ err e = rw z at h in cc
]

pub all_match : (doc : Value) → evaluate_query match_all doc ≡ true
unfolding evaluate_query
all_match doc = refl

pub none_fail : (doc : Value) → every_node no_nodes doc ≡ true
unfolding evaluate_query
none_fail doc = refl

pub none_match : (doc : Value) → some_node no_nodes doc ≡ false
unfolding evaluate_query
none_match doc = refl

pub compares :
    (path : FieldPath) (v doc : Value)
    → evaluate_query (cmp eq_op path v) doc ≡ evaluate_compare eq_op (extract_value doc path) v
unfolding evaluate_query
compares path v doc = refl

-- A field is read under its path.
pub Means-field :
    (k : Text) (next : FieldPath → Result QueryNode) (valid : Bool) (m : Option Value → Bool)
    → ((path : FieldPath) → Means (next path) valid (λ doc. m (extract_value doc path)))
    → Means (parse_path k >>= next) (is_path k && valid) (λ doc. m (at_path k doc))
unfolding is_path at_path
Means-field k next valid m h = go (parse_path k) (parse_path-fails k)
  where
    go :
        (r : Result FieldPath)
        → ((e : Failure) → r ≡ err e → e ≡ query_error)
        → Means (r >>= next) (is_ok r && valid) (λ doc. m (at_parsed r doc))
    go (ok path) fails = h path
    go (err e) fails = (refl, fails e refl)

pub Means-equal :
    (k : Text) (v : Value)
    → Means
        (parse_path k >>= λ path. ok (cmp eq_op path v))
        (is_path k)
        (λ doc. evaluate_compare eq_op (at_path k doc) v)
unfolding evaluate_query
Means-equal k v =
    subst
      (λ b.
        Means (parse_path k >>= λ path. ok (cmp eq_op path v)) b
          (λ doc. evaluate_compare eq_op (at_path k doc) v))
      (and_true (is_path k))
      (Means-field k (λ path. ok (cmp eq_op path v)) true (λ o. evaluate_compare eq_op o v)
        (λ path. (refl, λ doc. refl)))

pub plain_entry-Means :
    (kind : EntryKind) (k : Text) (v : Value)
    → Means
        (plain_entry kind k v)
        (valid_plain_entry kind k)
        (λ doc. evaluate_compare eq_op (at_path k doc) v)
unfolding plain_entry valid_plain_entry
plain_entry-Means field_key k v = Means-equal k v
plain_entry-Means kind k v = (refl, refl)

pub object_entry-Means :
    (kind : EntryKind) (k : Text) (sub : Result QueryNode) (next : FieldPath → Result QueryNode)
    (valid valid' : Bool) (m : Value → Bool) (m' : Option Value → Bool)
    → Means sub valid m
    → ((path : FieldPath) → Means (next path) valid' (λ doc. m' (extract_value doc path)))
    → Means
        (object_entry kind k sub next)
        (valid_object_entry kind k valid valid')
        (λ doc. matches_object_entry kind (m doc) (m' (at_path k doc)))
unfolding object_entry valid_object_entry matches_object_entry
object_entry-Means not_key k sub next valid valid' m m' h h' = Means-not sub valid m h
object_entry-Means field_key k sub next valid valid' m m' h h' = Means-field k next valid' m' h'
object_entry-Means kind k sub next valid valid' m m' h h' = (refl, refl)

pub array_entry-Means :
    (kind : EntryKind) (k : Text) (vs : Items) (rs : Result Nodes) (valid : Bool)
    (every some' : Value → Bool)
    → BranchesMean rs valid every some'
    → Means (array_entry kind k vs rs) (valid_array_entry kind k valid) (λ doc.
      matches_array_entry kind
        (every doc)
        (some' doc)
        (evaluate_compare eq_op (at_path k doc) (array vs)))
unfolding array_entry valid_array_entry matches_array_entry
array_entry-Means and_key k vs rs valid every some' h = (Means-branches rs valid every some' h).0
array_entry-Means or_key k vs rs valid every some' h = (Means-branches rs valid every some' h).1
array_entry-Means nor_key k vs rs valid every some' h = (Means-branches rs valid every some' h).2
array_entry-Means field_key k vs rs valid every some' h = Means-equal k (array vs)
array_entry-Means kind k vs rs valid every some' h = (refl, refl)

pub exists-Means :
    (path : FieldPath) (v : Value)
    → Means (exists_node path v) (is_boolean v) (λ doc. is_present v (extract_value doc path))
unfolding exists_node is_boolean is_present evaluate_query
exists-Means path (bool true) = (refl, λ doc. refl)
exists-Means path (bool false) = (refl, λ doc. refl)
exists-Means path v = (refl, refl)

pub plain_condition-Means :
    (operator : Operator) (path : FieldPath) (v : Value)
    → Means
        (plain_condition operator path v)
        (valid_plain_condition operator v)
        (λ doc. matches_plain_condition operator v (extract_value doc path))
unfolding plain_condition valid_plain_condition matches_plain_condition evaluate_query
plain_condition-Means (compare_operator op) path v = (refl, λ doc. refl)
plain_condition-Means exists_operator path v = exists-Means path v
plain_condition-Means operator path v = (refl, refl)

pub object_condition-Means :
    (operator : Operator) (path : FieldPath) (fs : Fields) (sub : Result QueryNode) (valid : Bool)
    (m : Value → Bool)
    → Means sub valid m
    → Means (object_condition operator path fs sub) (valid_object_condition operator valid) (λ doc.
      matches_object_condition operator fs
        (some_element m (extract_value doc path))
        (extract_value doc path))
unfolding object_condition valid_object_condition matches_object_condition evaluate_query
object_condition-Means (compare_operator op) path fs sub valid m h = (refl, λ doc. refl)
object_condition-Means elem_match_operator path fs sub valid m h =
    Means-elem_match sub path valid m h
object_condition-Means operator path fs sub valid m h = (refl, refl)

pub Means-if :
    (b : Bool) (r r' : Result QueryNode) (v v' : Bool) (m m' : Value → Bool)
    → Means r v m
    → Means r' v' m'
    → Means (if b then r else r') (if b then v else v') (λ doc. if b then m doc else m' doc)
Means-if true r r' v v' m m' h h' = h
Means-if false r r' v v' m m' h h' = h'
