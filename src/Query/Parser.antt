-- ===== src/Query/Parser.antt =====
-- src/query/parser.ts: parsePath, parseWhere and what it calls.
pub mod Meaning
pub mod Correct
pub mod Schema
use kvdb_nodejs.Prelude.{
  ℕ, zero, suc, ◌+◌, ◌-◌, ◌*◌, ◌≡◌, refl, Bool, true, false, ◌&&◌, ◌||◌, not, Option, none, some,
  List, [], ◌∷◌, ◌++◌, map, if◌then◌else◌, ◌==◌, text_keys, Text, text_beq, codes, ltb, leb, eqb,
  split, is_prefix,
}
use kvdb_nodejs.Core.Failure.{
  Failure, Result, ok, err, thrown, kvdb_query_error, ◌>>=◌, ◌>>◌, throw_if,
}
use kvdb_nodejs.Query.Value.{
  ℤ, pos, Value, undefined, null, bool, num, str, array, object, Items, no_items, item, Fields,
  no_fields, field,
}
use kvdb_nodejs.Query.Ast.{
  CompareOp, eq_op, ne_op, gt_op, gte_op, lt_op, lte_op, in_op, nin_op, PathSegment, key, index,
  FieldPath, QueryNode, and, or, nor, not_node, cmp, exists, elem_match, match_all, Nodes, no_nodes,
  node,
}

-- `new KvdbQueryError(...)`
abbrev pub query_error : Failure
query_error = thrown kvdb_query_error

unfoldable pub every_unit : (ℕ → Bool) → Text → Bool
every_unit p [] = true
every_unit p (c ∷ t) = p c && every_unit p t

unfoldable pub is_digit : ℕ → Bool
is_digit c = leb 48 c && leb c 57

-- `[A-Za-z0-9_$-]`
unfoldable pub is_segment_unit : ℕ → Bool
is_segment_unit c =
    leb 65 c && leb c 90
    || leb 97 c && leb c 122
    || is_digit c
    || eqb c b'_'
    || eqb c b'$'
    || eqb c b'-'

-- `VALID_PATH_SEGMENT` and `/^\d+$/`
unfoldable pub is_valid_segment : Text → Bool
is_valid_segment [] = false
is_valid_segment (c ∷ t) = every_unit is_segment_unit (c ∷ t)

unfoldable pub is_number : Text → Bool
is_number [] = false
is_number (c ∷ t) = every_unit is_digit (c ∷ t)

-- `Number(part)` of digits.
unfoldable pub read_digits : ℕ → Text → ℕ
read_digits n [] = n
read_digits n (c ∷ t) = read_digits (n * 10 + (c - 48)) t

-- A part of a dotted path. An empty part is no valid segment either.
unfoldable pub parse_segment : Text → Result PathSegment
parse_segment part =
    if is_number part
    then ok (index (pos (read_digits 0 part)))
    else if is_valid_segment part
    then ok (key part)
    else err query_error

unfoldable pub parse_segments : List Text → Result (List PathSegment)
parse_segments [] = ok []
parse_segments (part ∷ parts) =
    parse_segment part >>= λ s. parse_segments parts >>= λ ss. ok (s ∷ ss)

unfoldable pub parse_path : Text → Result FieldPath
parse_path [] = err query_error
parse_path (c ∷ t) = parse_segments (split b'.' (c ∷ t)) >>= λ ss.
    ok (record { segments = ss; source = c ∷ t; source_kind = none })

unfoldable pub is_forbidden : Text → Bool
is_forbidden k = k == codes "__proto__" || k == codes "constructor" || k == codes "prototype"

unfoldable pub has_forbidden : Fields → Bool
has_forbidden no_fields = false
has_forbidden (field k v fs) = is_forbidden k || has_forbidden fs

-- `key.startsWith("$")`
unfoldable pub is_operator : Text → Bool
is_operator k = is_prefix (codes "$") k

unfoldable pub all_operators : Fields → Bool
all_operators no_fields = true
all_operators (field k v fs) = is_operator k && all_operators fs

-- The cases of the `switch` in `parseEntry`.
pub data EntryKind : Type 0 where
  and_key or_key nor_key not_key unknown_key field_key : EntryKind

unfoldable pub entry_kind : Text → EntryKind
entry_kind k =
    if k == codes "$and"
    then and_key
    else if k == codes "$or"
    then or_key
    else if k == codes "$nor"
    then nor_key
    else if k == codes "$not"
    then not_key
    else if is_operator k
    then unknown_key
    else field_key

-- `COMPARE_OPS` and the operators beside them.
pub data Operator : Type 0 where
  compare_operator : CompareOp → Operator
  exists_operator elem_match_operator unknown_operator : Operator

unfoldable pub operator_of : Text → Operator
operator_of k =
    if k == codes "$eq"
    then compare_operator eq_op
    else if k == codes "$ne"
    then compare_operator ne_op
    else if k == codes "$gt"
    then compare_operator gt_op
    else if k == codes "$gte"
    then compare_operator gte_op
    else if k == codes "$lt"
    then compare_operator lt_op
    else if k == codes "$lte"
    then compare_operator lte_op
    else if k == codes "$in"
    then compare_operator in_op
    else if k == codes "$nin"
    then compare_operator nin_op
    else if k == codes "$exists"
    then exists_operator
    else if k == codes "$elemMatch"
    then elem_match_operator
    else unknown_operator

-- One condition stands for itself.
unfoldable pub conjunction : QueryNode → Nodes → QueryNode
conjunction n no_nodes = n
conjunction n (node m ms) = and (node n (node m ms))

unfoldable pub exists_node : FieldPath → Value → Result QueryNode
exists_node path (bool flag) = ok (exists path flag)
exists_node path operand = err query_error

-- The entries of `parseEntry` by their kind, for a value that holds no part of the query, for an
-- object (read as a query, and under a path) and for an array (read as a list of queries). An object
-- or an array where the other one is wanted is what `asObject` and `parseBranchList` refuse.
unfoldable pub plain_entry : EntryKind → Text → Value → Result QueryNode
plain_entry field_key k v = parse_path k >>= λ path. ok (cmp eq_op path v)
plain_entry kind k v = err query_error

unfoldable pub object_entry :
    EntryKind → Text → Result QueryNode → (FieldPath → Result QueryNode) → Result QueryNode
object_entry not_key k sub_where field_at = sub_where >>= λ n. ok (not_node n)
object_entry field_key k sub_where field_at = parse_path k >>= field_at
object_entry kind k sub_where field_at = err query_error

unfoldable pub array_entry : EntryKind → Text → Items → Result Nodes → Result QueryNode
array_entry and_key k vs branches = branches >>= λ ns. ok (and ns)
array_entry or_key k vs branches = branches >>= λ ns. ok (or ns)
array_entry nor_key k vs branches = branches >>= λ ns. ok (nor ns)
array_entry field_key k vs branches = parse_path k >>= λ path. ok (cmp eq_op path (array vs))
array_entry kind k vs branches = err query_error

-- The conditions of `parseField` by their operator, in the same way.
unfoldable pub plain_condition : Operator → FieldPath → Value → Result QueryNode
plain_condition (compare_operator op) path v = ok (cmp op path v)
plain_condition exists_operator path v = exists_node path v
plain_condition operator path v = err query_error

unfoldable pub object_condition :
    Operator → FieldPath → Fields → Result QueryNode → Result QueryNode
object_condition (compare_operator op) path fs sub_where = ok (cmp op path (object fs))
object_condition elem_match_operator path fs sub_where = sub_where >>= λ n. ok (elem_match path n)
object_condition operator path fs sub_where = err query_error

unfoldable mutual
  pub parse_where : Fields → Result QueryNode
  parse_where no_fields = ok match_all
  parse_where (field k v fs) =
      throw_if (has_forbidden (field k v fs)) query_error
      >> (parse_entry k v >>= λ n. parse_entries fs >>= λ ns. ok (conjunction n ns))

  pub parse_entries : Fields → Result Nodes
  parse_entries no_fields = ok no_nodes
  parse_entries (field k v fs) = parse_entry k v >>= λ n. parse_entries fs >>= λ ns. ok (node n ns)

  pub parse_entry : Text → Value → Result QueryNode
  parse_entry k (object fs) =
      object_entry (entry_kind k) k (parse_where fs) (λ path. parse_object_field path fs)
  parse_entry k (array vs) = array_entry (entry_kind k) k vs (parse_branches vs)
  parse_entry k v = plain_entry (entry_kind k) k v

  pub parse_branches : Items → Result Nodes
  parse_branches no_items = ok no_nodes
  parse_branches (item (object fs) vs) =
      parse_where fs >>= λ n. parse_branches vs >>= λ ns. ok (node n ns)
  parse_branches (item v vs) = err query_error

  -- `parseField` on an object: one whose keys are all operators lists conditions, any other one is
  -- a value to compare with.
  pub parse_object_field : FieldPath → Fields → Result QueryNode
  parse_object_field path no_fields = ok (cmp eq_op path (object no_fields))
  parse_object_field path (field k v fs) =
      let conditions = parse_condition path k v >>= λ n.
      parse_conditions path fs >>= λ ns. ok (conjunction n ns) in
      if all_operators (field k v fs)
      then conditions
      else ok (cmp eq_op path (object (field k v fs)))

  pub parse_conditions : FieldPath → Fields → Result Nodes
  parse_conditions path no_fields = ok no_nodes
  parse_conditions path (field k v fs) =
      parse_condition path k v >>= λ n. parse_conditions path fs >>= λ ns. ok (node n ns)

  pub parse_condition : FieldPath → Text → Value → Result QueryNode
  parse_condition path k (object fs) = object_condition (operator_of k) path fs (parse_where fs)
  parse_condition path k v = plain_condition (operator_of k) path v

unfoldable pub parse_field : FieldPath → Value → Result QueryNode
parse_field path (object fs) = parse_object_field path fs
parse_field path v = ok (cmp eq_op path v)

-- What a test unfolds to parse a concrete query.
unfoldable pub parser_runs : Unit {0}
unfolding parse_where has_forbidden is_forbidden text_beq object_entry entry_kind is_operator
    is_prefix parse_path parse_segments split parse_segment is_number every_unit is_digit
    is_valid_segment is_segment_unit all_operators array_entry conjunction exists_node
    object_condition operator_of plain_condition plain_entry read_digits parse_field
parser_runs = tt
