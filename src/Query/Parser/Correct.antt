-- ===== src/Query/Parser/Correct.antt =====
-- `parseWhere` against the meaning of query documents.
pub mod Combine
pub mod Entries
use kvdb_nodejs.Prelude.{
  and_true, ◌≡◌, ◌⊎◌, refl, sym, ap, ◌∙◌, Bool, true, false, ◌&&◌, ◌||◌, not, Option, none, some,
  inl, inr, Bool-cases, Option-cases, Text, is_some, if◌then◌else◌, List, [], ◌∷◌, split,
}
use mathlib.Core.Path.{subst}
use kvdb_nodejs.Core.Failure.{Failure, Result, ok, err, Result-cases, ◌>>=◌, ◌>>◌, throw_if}
use kvdb_nodejs.Query.Value.{
  Value, undefined, null, bool, num, str, array, object, Items, no_items, item, Fields, no_fields,
  field,
}
use kvdb_nodejs.Query.Ast.{
  CompareOp, eq_op, FieldPath, QueryNode, and, or, nor, not_node, cmp, exists, elem_match,
  match_all, Nodes, no_nodes, node, extract_value, evaluate_compare, some_element, some_item,
  evaluate_query, every_node, some_node,
}
use kvdb_nodejs.Query.Parser.{
  query_error, parse_segment, parse_segments, is_number, is_valid_segment, parse_path,
  has_forbidden, all_operators, EntryKind, and_key, or_key, nor_key, not_key, unknown_key,
  field_key, entry_kind, Operator, compare_operator, exists_operator, elem_match_operator,
  unknown_operator, operator_of, conjunction, exists_node, plain_entry, object_entry, array_entry,
  plain_condition, object_condition, parse_where, parse_entries, parse_entry, parse_branches,
  parse_object_field, parse_conditions, parse_condition,
}
use kvdb_nodejs.Query.Parser.Meaning.{
  is_ok, at_parsed, valid_object_entry, valid_array_entry, valid_object_condition,
  matches_object_entry, matches_array_entry, matches_object_condition, is_path, at_path, is_boolean,
  is_present, valid_plain_entry, valid_plain_condition, valid_where, valid_entries, valid_entry,
  valid_branches, valid_field, valid_conditions, valid_condition, matches_plain_condition,
  matches_where, matches_entry, every_branch, some_branch, matches_field, matches_conditions,
  matches_condition,
}
use kvdb_nodejs.Query.Parser.Correct.Combine.{
  Means, AllMean, BranchesMean, evaluate_query-conjunction, Means-conjunction, AllMean-node,
  BranchesMean-node, Means-not, Means-branches, Means-guard, Means-elem_match,
}
use kvdb_nodejs.Query.Parser.Correct.Entries.{
  parse_path-fails, all_match, none_fail, none_match, compares, Means-field, Means-equal,
  plain_entry-Means, object_entry-Means, array_entry-Means, exists-Means, plain_condition-Means,
  object_condition-Means, Means-if,
}

mutual
  unfolding parse_where valid_where matches_where

  pub where-Means : (fs : Fields) → Means (parse_where fs) (valid_where fs) (matches_where fs)
  where-Means no_fields = (refl, λ doc. all_match doc)
  where-Means (field k v fs) =
      Means-guard _ (has_forbidden (field k v fs)) (valid_entry k v && valid_entries fs) _ (
        Means-conjunction (parse_entry k v) (parse_entries fs) (valid_entry k v) (valid_entries fs)
          (matches_entry k v) (matches_where fs) (entry-Means k v) (entries-Mean fs))

  entries-Mean : (fs : Fields) → AllMean (parse_entries fs) (valid_entries fs) (matches_where fs)
  entries-Mean no_fields = (refl, λ doc. none_fail doc)
  entries-Mean (field k v fs) =
      AllMean-node (parse_entry k v) (parse_entries fs) (valid_entry k v) (valid_entries fs)
        (matches_entry k v) (matches_where fs) (entry-Means k v) (entries-Mean fs)

  entry-Means :
      (k : Text) (v : Value) → Means (parse_entry k v) (valid_entry k v) (matches_entry k v)
  entry-Means k (object fs) =
      object_entry-Means (entry_kind k) k (parse_where fs) (λ path. parse_object_field path fs)
        (valid_where fs) (valid_field fs) (matches_where fs) (matches_field fs) (where-Means fs)
        (λ path. field-Means path fs)
  entry-Means k (array vs) =
      array_entry-Means (entry_kind k) k vs (parse_branches vs) (valid_branches vs)
        (every_branch vs) (some_branch vs) (branches-Mean vs)
  entry-Means k v = plain_entry-Means (entry_kind k) k v

  branches-Mean :
      (vs : Items)
      → BranchesMean (parse_branches vs) (valid_branches vs) (every_branch vs) (some_branch vs)
  branches-Mean no_items = (refl, λ doc. none_fail doc, λ doc. none_match doc)
  branches-Mean (item (object fs) vs) =
      BranchesMean-node (parse_where fs) (parse_branches vs) (valid_where fs) (valid_branches vs)
        (matches_where fs) (every_branch vs) (some_branch vs) (where-Means fs) (branches-Mean vs)
  branches-Mean (item v vs) = (refl, refl)

  pub field-Means :
      (path : FieldPath) (fs : Fields)
      → Means
          (parse_object_field path fs)
          (valid_field fs)
          (λ doc. matches_field fs (extract_value doc path))
  field-Means path no_fields = (refl, λ doc. compares path (object no_fields) doc)
  field-Means path (field k v fs) =
      Means-if (all_operators (field k v fs)) _ _ (valid_condition k v && valid_conditions fs) true
        _ _
        (Means-conjunction (parse_condition path k v) (parse_conditions path fs)
          (valid_condition k v) (valid_conditions fs)
          (λ doc. matches_condition k v (extract_value doc path))
          (λ doc. matches_conditions fs (extract_value doc path)) (condition-Means path k v)
          (conditions-Mean path fs))
        (refl, λ doc. compares path (object (field k v fs)) doc)

  conditions-Mean :
      (path : FieldPath) (fs : Fields)
      → AllMean
          (parse_conditions path fs)
          (valid_conditions fs)
          (λ doc. matches_conditions fs (extract_value doc path))
  conditions-Mean path no_fields = (refl, λ doc. none_fail doc)
  conditions-Mean path (field k v fs) =
      AllMean-node (parse_condition path k v) (parse_conditions path fs) (valid_condition k v)
        (valid_conditions fs) (λ doc. matches_condition k v (extract_value doc path))
        (λ doc. matches_conditions fs (extract_value doc path)) (condition-Means path k v)
        (conditions-Mean path fs)

  condition-Means :
      (path : FieldPath) (k : Text) (v : Value)
      → Means
          (parse_condition path k v)
          (valid_condition k v)
          (λ doc. matches_condition k v (extract_value doc path))
  condition-Means path k (object fs) =
      object_condition-Means (operator_of k) path fs (parse_where fs) (valid_where fs)
        (matches_where fs) (where-Means fs)
  condition-Means path k v = plain_condition-Means (operator_of k) path v

-- `parseWhere` accepts the valid query documents, and the tree that it builds matches the values
-- that the document matches; it refuses every other document with a query error.
pub parse_where-Means : (fs : Fields) → Means (parse_where fs) (valid_where fs) (matches_where fs)
parse_where-Means = where-Means
