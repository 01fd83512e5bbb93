-- ===== src/Query/Parser/Meaning.antt =====
-- What the query documents of docs/SPEC.md 6.2 mean, read without a syntax tree: which documents
-- are queries, and which values a query matches.
use kvdb_nodejs.Prelude.{
  Bool, true, false, ◌&&◌, ◌||◌, not, Option, none, Text, is_some, if◌then◌else◌,
}
use kvdb_nodejs.Core.Failure.{Result, ok, err}
use kvdb_nodejs.Query.Value.{
  Value, bool, array, object, Items, no_items, item, Fields, no_fields, field,
}
use kvdb_nodejs.Query.Ast.{FieldPath, eq_op, extract_value, evaluate_compare, some_element}
use kvdb_nodejs.Query.Parser.{
  parse_path, has_forbidden, all_operators, EntryKind, and_key, or_key, nor_key, not_key, field_key,
  entry_kind, Operator, compare_operator, exists_operator, elem_match_operator, operator_of,
}

abbrev pub is_ok : Result FieldPath → Bool
is_ok (ok path) = true
is_ok (err e) = false

unfoldable pub is_path : Text → Bool
is_path k = is_ok (parse_path k)

-- The value at a dotted path.
abbrev pub at_parsed : Result FieldPath → Value → Option Value
at_parsed (ok path) doc = extract_value doc path
at_parsed (err e) doc = none

unfoldable pub at_path : Text → Value → Option Value
at_path k doc = at_parsed (parse_path k) doc

unfoldable pub is_boolean : Value → Bool
is_boolean (bool b) = true
is_boolean v = false

unfoldable pub is_present : Value → Option Value → Bool
is_present (bool true) found = is_some found
is_present (bool false) found = not (is_some found)
is_present v found = false

-- A query under a logical operator, a comparison under a path, a known operator in a condition.
unfoldable pub valid_plain_entry : EntryKind → Text → Bool
valid_plain_entry field_key k = is_path k
valid_plain_entry kind k = false

unfoldable pub valid_object_entry : EntryKind → Text → Bool → Bool → Bool
valid_object_entry not_key k sub_where conditions = sub_where
valid_object_entry field_key k sub_where conditions = is_path k && conditions
valid_object_entry kind k sub_where conditions = false

unfoldable pub valid_array_entry : EntryKind → Text → Bool → Bool
valid_array_entry and_key k branches = branches
valid_array_entry or_key k branches = branches
valid_array_entry nor_key k branches = branches
valid_array_entry field_key k branches = is_path k
valid_array_entry kind k branches = false

unfoldable pub valid_plain_condition : Operator → Value → Bool
valid_plain_condition (compare_operator op) v = true
valid_plain_condition exists_operator v = is_boolean v
valid_plain_condition operator v = false

unfoldable pub valid_object_condition : Operator → Bool → Bool
valid_object_condition (compare_operator op) sub_where = true
valid_object_condition elem_match_operator sub_where = sub_where
valid_object_condition operator sub_where = false

unfoldable mutual
  pub valid_where : Fields → Bool
  valid_where no_fields = true
  valid_where (field k v fs) =
      not (has_forbidden (field k v fs)) && (valid_entry k v && valid_entries fs)

  pub valid_entries : Fields → Bool
  valid_entries no_fields = true
  valid_entries (field k v fs) = valid_entry k v && valid_entries fs

  pub valid_entry : Text → Value → Bool
  valid_entry k (object fs) = valid_object_entry (entry_kind k) k (valid_where fs) (valid_field fs)
  valid_entry k (array vs) = valid_array_entry (entry_kind k) k (valid_branches vs)
  valid_entry k v = valid_plain_entry (entry_kind k) k

  pub valid_branches : Items → Bool
  valid_branches no_items = true
  valid_branches (item (object fs) vs) = valid_where fs && valid_branches vs
  valid_branches (item v vs) = false

  pub valid_field : Fields → Bool
  valid_field no_fields = true
  valid_field (field k v fs) =
      let conditions = valid_condition k v && valid_conditions fs in
      if all_operators (field k v fs) then conditions else true

  pub valid_conditions : Fields → Bool
  valid_conditions no_fields = true
  valid_conditions (field k v fs) = valid_condition k v && valid_conditions fs

  pub valid_condition : Text → Value → Bool
  valid_condition k (object fs) = valid_object_condition (operator_of k) (valid_where fs)
  valid_condition k v = valid_plain_condition (operator_of k) v

-- What matches, for a query that is valid.
unfoldable pub matches_object_entry : EntryKind → Bool → Bool → Bool
matches_object_entry not_key sub_where field_matches = not sub_where
matches_object_entry kind sub_where field_matches = field_matches

unfoldable pub matches_array_entry : EntryKind → Bool → Bool → Bool → Bool
matches_array_entry and_key every some' equal = every
matches_array_entry or_key every some' equal = some'
matches_array_entry nor_key every some' equal = not some'
matches_array_entry kind every some' equal = equal

unfoldable pub matches_plain_condition : Operator → Value → Option Value → Bool
matches_plain_condition (compare_operator op) v found = evaluate_compare op found v
matches_plain_condition exists_operator v found = is_present v found
matches_plain_condition operator v found = false

unfoldable pub matches_object_condition : Operator → Fields → Bool → Option Value → Bool
matches_object_condition (compare_operator op) fs element found =
    evaluate_compare op found (object fs)
matches_object_condition operator fs element found = element

-- All entries hold, all conditions hold of the value that is found.
unfoldable mutual
  pub matches_where : Fields → Value → Bool
  matches_where no_fields doc = true
  matches_where (field k v fs) doc = matches_entry k v doc && matches_where fs doc

  pub matches_entry : Text → Value → Value → Bool
  matches_entry k (object fs) doc =
      matches_object_entry (entry_kind k) (matches_where fs doc) (matches_field fs (at_path k doc))
  matches_entry k (array vs) doc =
      matches_array_entry (entry_kind k) (every_branch vs doc) (some_branch vs doc)
        (evaluate_compare eq_op (at_path k doc) (array vs))
  matches_entry k v doc = evaluate_compare eq_op (at_path k doc) v

  pub every_branch : Items → Value → Bool
  every_branch (item (object fs) vs) doc = matches_where fs doc && every_branch vs doc
  every_branch vs doc = true

  pub some_branch : Items → Value → Bool
  some_branch (item (object fs) vs) doc = matches_where fs doc || some_branch vs doc
  some_branch vs doc = false

  pub matches_field : Fields → Option Value → Bool
  matches_field no_fields found = evaluate_compare eq_op found (object no_fields)
  matches_field (field k v fs) found =
      let conditions = matches_condition k v found && matches_conditions fs found in
      if all_operators (field k v fs)
      then conditions
      else evaluate_compare eq_op found (object (field k v fs))

  pub matches_conditions : Fields → Option Value → Bool
  matches_conditions no_fields found = true
  matches_conditions (field k v fs) found =
      matches_condition k v found && matches_conditions fs found

  pub matches_condition : Text → Value → Option Value → Bool
  matches_condition k (object fs) found =
      matches_object_condition (operator_of k) fs (some_element (λ v. matches_where fs v) found)
        found
  matches_condition k v found = matches_plain_condition (operator_of k) v found

-- What a test unfolds to read a concrete query.
unfoldable pub meaning_runs : Unit {0}
unfolding is_path at_path is_boolean is_present valid_plain_entry valid_object_entry
    valid_array_entry valid_plain_condition valid_object_condition valid_where matches_object_entry
    matches_array_entry matches_plain_condition matches_object_condition matches_where
meaning_runs = tt
