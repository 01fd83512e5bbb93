-- ===== src/Query/Parser/Schema/Parts.antt =====
-- The parts of a query that names no column.
use kvdb_nodejs.Prelude.{
  and_true, and_assoc, and_false, false_and, and_both, ◌≡◌, refl, ap, ◌∙◌, Bool, true, false, ◌&&◌,
  ◌||◌, not, Option, none, inl, inr, Bool-cases, Text, List, [], ◌∷◌, split, if◌then◌else◌, ◌==◌,
  text_keys, codes,
}
use mathlib.Core.Path.{subst}
use mathlib.Core.Bool.{false≢true}
use kvdb_nodejs.Core.Failure.{Failure, Result, ok, err, Result-cases, ◌>>=◌, ◌>>◌, throw_if}
use kvdb_nodejs.Query.Value.{Value, array, object, Items, Fields}
use kvdb_nodejs.Query.Ast.{
  eq_op, FieldPath, QueryNode, Nodes, no_nodes, node, extract_value, enter, evaluate_compare,
  evaluate_query, every_node,
}
use kvdb_nodejs.Query.Parser.{
  query_error, parse_path, parse_segments, is_operator, EntryKind, and_key, or_key, nor_key,
  not_key, unknown_key, field_key, entry_kind, parse_field,
}
use kvdb_nodejs.Query.Parser.Meaning.{
  is_ok, at_parsed, is_path, at_path, valid_plain_entry, valid_object_entry, valid_array_entry,
  valid_field, matches_object_entry, matches_array_entry, matches_field,
}
use kvdb_nodejs.Query.Parser.Correct.{field-Means}
use kvdb_nodejs.Query.Parser.Correct.Combine.{
  Means, AllMean, BranchesMean, evaluate_query-conjunction, Means-not, Means-branches,
}
use kvdb_nodejs.Query.Parser.Correct.Entries.{parse_path-fails, compares}
use kvdb_nodejs.Query.Parser.Schema.{
  is_known, first_part, in_value, parse_value_field, and_part, or_part, nor_part, not_part,
  columns_part, value_part, unknown_part, field_part, schema_key, schema_field, join_parts,
  one_part, object_part, array_part, plain_part, join_nodes,
}
use kvdb_nodejs.Query.Parser.Schema.Plain.{part_of, is_group, under}

pub keys_agree :
    (a o n t c v x : Bool)
    → (c || v) ≡ false
    → (if a
        then and_part
        else if o
        then or_part
        else if n
        then nor_part
        else if t
        then not_part
        else if c
        then columns_part
        else if v
        then value_part
        else if x
        then unknown_part
        else field_part)
      ≡ part_of (
          if a
          then and_key
          else if o
          then or_key
          else if n
          then nor_key
          else if t
          then not_key
          else if x
          then unknown_key
          else field_key)
unfolding part_of
keys_agree true o n t c v x h = refl
keys_agree false true n t c v x h = refl
keys_agree false false true t c v x h = refl
keys_agree false false false true c v x h = refl
keys_agree false false false false true v x h = cc
keys_agree false false false false false true x h = cc
keys_agree false false false false false false true h = refl
keys_agree false false false false false false false h = refl

pub schema_key-part_of : (k : Text) → is_group k ≡ false → schema_key k ≡ part_of (entry_kind k)
unfolding schema_key part_of entry_kind is_group
schema_key-part_of k h =
    keys_agree (k == codes "$and") (k == codes "$or") (k == codes "$nor") (k == codes "$not")
      (k == codes "columns") (k == codes "value") (is_operator k) h

pub forbidden_first : (a b c d : Bool) → (not a && (c && (not b && d))) ≡ (not (a || b) && (c && d))
forbidden_first true b c d = refl
forbidden_first false true true d = refl
forbidden_first false true false d = refl
forbidden_first false false c d = refl

pub parse_path-kind :
    (k : Text) (path : FieldPath) → parse_path k ≡ ok path → path.source_kind ≡ none
unfolding parse_path
parse_path-kind [] path h = cc
parse_path-kind (c ∷ t) path h = elim (Result-cases (parse_segments (split b'.' (c ∷ t)))) [
  | inl (ss, e) ↦ let same : ok _ ≡ ok path = rw e at h in cc
  | inr (f, e) ↦ let bad : err f ≡ ok path = rw e at h in cc
]

-- The trees of a list of parts.
pub every_node-join :
    (ns ms : Nodes) (doc : Value)
    → every_node (join_nodes ns ms) doc ≡ (every_node ns doc && every_node ms doc)
unfolding evaluate_query
every_node-join no_nodes ms doc = refl
every_node-join (node n ns) ms doc =
    ap (λ b. evaluate_query n doc && b) (every_node-join ns ms doc)
    ∙ and_assoc (evaluate_query n doc) _ _

pub Means-join :
    (rs : Result Nodes) (v : Bool) (m : Value → Bool)
    → AllMean rs v m
    → Means (rs >>= λ ns. ok (join_parts ns)) v m
unfolding join_parts evaluate_query
Means-join (err e) v m h = h
Means-join (ok no_nodes) v m h = h
Means-join (ok (node n ns)) v m h = (h.0, λ doc. evaluate_query-conjunction n ns doc ∙ h.1 doc)

pub AllMean-one :
    (r : Result QueryNode) (v : Bool) (m : Value → Bool) → Means r v m → AllMean (one_part r) v m
unfolding evaluate_query
AllMean-one (err e) v m h = h
AllMean-one (ok n) v m h = (h.0, λ doc. and_true (evaluate_query n doc) ∙ h.1 doc)

pub AllMean-join :
    (rs ss : Result Nodes) (v w : Bool) (m l : Value → Bool)
    → AllMean rs v m
    → AllMean ss w l
    → AllMean (rs >>= λ ns. ss >>= λ ms. ok (join_nodes ns ms)) (v && w) (λ doc. m doc && l doc)
AllMean-join (err e) ss v w m l h k = (false_and w h.0, h.1)
AllMean-join (ok ns) (err e) v w m l h k = (and_false h.0 k.0, k.1)
AllMean-join (ok ns) (ok ms) v w m l h k =
    (and_both h.0 k.0, λ doc. every_node-join ns ms doc ∙ rw (h.1 doc, k.1 doc) refl)

pub AllMean-guard :
    (bad v : Bool) (rs : Result Nodes) (m : Value → Bool)
    → AllMean rs v m
    → AllMean (throw_if bad query_error >> rs) (not bad && v) m
AllMean-guard true v rs m h = (refl, refl)
AllMean-guard false v rs m h = h

pub Means-same :
    (r : Result QueryNode) (v : Bool) (m l : Value → Bool)
    → ((doc : Value) → m doc ≡ l doc)
    → Means r v m
    → Means r v l
Means-same (err e) v m l same h = h
Means-same (ok n) v m l same h = (h.0, λ doc. h.1 doc ∙ same doc)

-- A field of the value.
pub valid_value : Value → Bool
valid_value (object fs) = valid_field fs
valid_value v = true

pub matches_value : Value → Option Value → Bool
matches_value (object fs) found = matches_field fs found
matches_value v found = evaluate_compare eq_op found v

pub parse_field-Means :
    (path : FieldPath) (v : Value)
    → Means (parse_field path v) (valid_value v) (λ doc. matches_value v (extract_value doc path))
unfolding parse_field valid_value matches_value
parse_field-Means path (object fs) = field-Means path fs
parse_field-Means path v = (refl, λ doc. compares path v doc)

pub extract_value-in_value :
    (path : FieldPath) (doc : Value)
    → path.source_kind ≡ none
    → extract_value doc (in_value path) ≡ extract_value doc path
unfolding extract_value in_value enter
extract_value-in_value path doc h = rw h refl

pub value_field-Means :
    (k : Text) (v : Value)
    → Means
        (parse_value_field k v)
        (is_path k && valid_value v)
        (λ doc. matches_value v (at_path k doc))
unfolding parse_value_field is_path at_path
value_field-Means k v = go (parse_path k) (parse_path-fails k) (parse_path-kind k)
  where
    go :
        (r : Result FieldPath)
        → ((e : Failure) → r ≡ err e → e ≡ query_error)
        → ((path : FieldPath) → r ≡ ok path → path.source_kind ≡ none)
        → Means
            (r >>= λ path. parse_field (in_value path) v)
            (is_ok r && valid_value v)
            (λ doc. matches_value v (at_parsed r doc))
    go (err e) fails kind = (refl, fails e refl)
    go (ok path) fails kind =
        Means-same (parse_field (in_value path) v) (valid_value v) _ _
          (λ doc. ap (matches_value v) (extract_value-in_value path doc (kind path refl)))
          (parse_field-Means (in_value path) v)

pub schema_field-Means :
    (cols : List Text) (k : Text) (v : Value)
    → not (is_known (first_part (split b'.' k)) cols) ≡ true
    → Means
        (schema_field cols k v)
        (is_path k && valid_value v)
        (λ doc. matches_value v (at_path k doc))
unfolding schema_field
schema_field-Means cols k v h = elim (Bool-cases (is_known (first_part (split b'.' k)) cols)) [
  | inl y ↦ let bad : false ≡ true = rw y at h in absurd (false≢true bad)
  | inr n ↦ rw n (value_field-Means k v)
]

pub object_part-Mean :
    (kind : EntryKind) (cols : List Text) (k : Text) (fs : Fields) (sub : Result QueryNode)
    (plain valid : Bool) (m : Value → Bool)
    → under kind plain (not (is_known (first_part (split b'.' k)) cols)) ≡ true
    → (plain ≡ true → Means sub valid m)
    → AllMean
        (object_part (part_of kind) cols k fs sub)
        (valid_object_entry kind k valid (valid_field fs))
        (λ doc. matches_object_entry kind (m doc) (matches_field fs (at_path k doc)))
unfolding object_part part_of valid_object_entry matches_object_entry under valid_value
    matches_value
object_part-Mean not_key cols k fs sub plain valid m p h =
    AllMean-one _ _ _ (Means-not sub valid m (h p))
object_part-Mean field_key cols k fs sub plain valid m p h =
    AllMean-one _ _ _ (schema_field-Means cols k (object fs) p)
object_part-Mean kind cols k fs sub plain valid m p h = (refl, refl)

pub array_part-Mean :
    (kind : EntryKind) (cols : List Text) (k : Text) (vs : Items) (rs : Result Nodes)
    (plain valid : Bool) (every some' : Value → Bool)
    → under kind plain (not (is_known (first_part (split b'.' k)) cols)) ≡ true
    → (plain ≡ true → BranchesMean rs valid every some')
    → AllMean (array_part (part_of kind) cols k vs rs) (valid_array_entry kind k valid) (λ doc.
      matches_array_entry kind
        (every doc)
        (some' doc)
        (evaluate_compare eq_op (at_path k doc) (array vs)))
unfolding array_part part_of valid_array_entry matches_array_entry under valid_value matches_value
array_part-Mean and_key cols k vs rs plain valid every some' p h =
    AllMean-one _ _ _ (Means-branches rs valid every some' (h p)).0
array_part-Mean or_key cols k vs rs plain valid every some' p h =
    AllMean-one _ _ _ (Means-branches rs valid every some' (h p)).1
array_part-Mean nor_key cols k vs rs plain valid every some' p h =
    AllMean-one _ _ _ (Means-branches rs valid every some' (h p)).2
array_part-Mean field_key cols k vs rs plain valid every some' p h = AllMean-one _ _ _ (
    subst
      (λ b.
        Means (schema_field cols k (array vs)) b
          (λ doc. evaluate_compare eq_op (at_path k doc) (array vs)))
      (and_true (is_path k)) (schema_field-Means cols k (array vs) p))
array_part-Mean kind cols k vs rs plain valid every some' p h = (refl, refl)

-- A value that is neither an object nor an array.
abbrev pub is_scalar : Value → Bool
is_scalar (object fs) = false
is_scalar (array vs) = false
is_scalar v = true

pub plain_part-Mean :
    (kind : EntryKind) (cols : List Text) (k : Text) (v : Value)
    → is_scalar v ≡ true
    → under kind true (not (is_known (first_part (split b'.' k)) cols)) ≡ true
    → AllMean
        (plain_part (part_of kind) cols k v)
        (valid_plain_entry kind k)
        (λ doc. evaluate_compare eq_op (at_path k doc) v)
unfolding plain_part part_of valid_plain_entry under valid_value matches_value
plain_part-Mean field_key cols k (object fs) e p = absurd (false≢true e)
plain_part-Mean field_key cols k v e p = AllMean-one _ _ _ (
    subst (λ b. Means (schema_field cols k v) b (λ doc. evaluate_compare eq_op (at_path k doc) v))
      (and_true (is_path k)) (schema_field-Means cols k v p))
plain_part-Mean kind cols k v e p = (refl, refl)
