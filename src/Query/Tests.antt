-- ===== src/Query/Tests.antt =====
-- Queries on small documents.
use kvdb_nodejs.Prelude.{◌&&◌, false, not, suc, ◌++◌, ◌≡◌, refl, true, none, some, [], ◌∷◌, codes}
use kvdb_nodejs.Prelude.Decimal.{decimal}
use kvdb_nodejs.Core.Failure.{ok, err}
use kvdb_nodejs.Query.Value.{
  pos, Value, null, bool, num, array, object, Items, no_items, item, Fields, no_fields, field,
  is_equal, IsJson,
}
use kvdb_nodejs.Query.Value.Equivalence.{is_equal-equivalence}
use kvdb_nodejs.Query.Ast.{
  eq_op, gt_op, lte_op, key, index, FieldPath, QueryNode, and, nor, cmp, exists, no_nodes, node,
  query_runs, evaluate_query, collect_field_paths,
}
use kvdb_nodejs.Query.Congruence.{evaluate_query-is_equal}
use kvdb_nodejs.Query.Parser.{query_error, parser_runs, parse_where}
use kvdb_nodejs.Query.Parser.Meaning.{meaning_runs, matches_where}
use kvdb_nodejs.Query.Parser.Correct.{parse_where-Means}
use kvdb_nodejs.Query.Parser.Correct.Combine.{Means}
use kvdb_nodejs.Query.Parser.Schema.{is_known, extract_known_columns, schema, parse_schema_where}
use kvdb_nodejs.Query.Parser.Schema.Plain.{is_plain, is_group, under}
use kvdb_nodejs.Query.Parser.Schema.Agree.{parse_schema_where-Means}
use kvdb_nodejs.Query.Compiler.{compiler_runs, SqlDialect, SqlFragment, compile_where}
use kvdb_nodejs.Query.Compiler.Bound.{
  is_compilable, operands, is_list_compare, compared_values, Binds, compile_where-Binds,
}

abbrev tags : Items
tags = item (num (pos 1)) (item (num (pos 7)) no_items)

-- `{ age: 30, tags: [1, 7] }`, and the same with the keys in the other order.
abbrev ann : Value
ann = object (field (codes "age") (num (pos 30)) (field (codes "tags") (array tags) no_fields))

abbrev ann' : Value
ann' = object (field (codes "tags") (array tags) (field (codes "age") (num (pos 30)) no_fields))

-- `{ age: { $gt: 18, $lte: 30 }, $nor: [{ "tags.1": 1 }, { name: { $exists: true } }] }`
abbrev age_where : Fields
age_where =
    field (codes "age")
      (object (field (codes "$gt") (num (pos 18)) (field (codes "$lte") (num (pos 30)) no_fields)))
      (field (codes "$nor")
        (array (
          item (object (field (codes "tags.1") (num (pos 1)) no_fields)) (
            item
              (object (
                field (codes "name") (object (field (codes "$exists") (bool true) no_fields))
                  no_fields))
              no_items)))
        no_fields)

abbrev age_path : FieldPath
age_path = record { segments = key (codes "age") ∷ []; source = codes "age"; source_kind = none }

abbrev tag_path : FieldPath
tag_path = record {
  segments = key (codes "tags") ∷ index (pos 1) ∷ [];
  source = codes "tags.1";
  source_kind = none;
}

abbrev name_path : FieldPath
name_path = record { segments = key (codes "name") ∷ []; source = codes "name"; source_kind = none }

abbrev age_node : QueryNode
age_node = and (
    node
      (and (
        node (cmp gt_op age_path (num (pos 18)))
          (node (cmp lte_op age_path (num (pos 30))) no_nodes)))
      (node (nor (node (cmp eq_op tag_path (num (pos 1))) (node (exists name_path true) no_nodes)))
        no_nodes))

parse_runs : parse_where age_where ≡ ok age_node
unfolding parser_runs
parse_runs = refl

evaluate_runs : evaluate_query age_node ann ≡ true
unfolding query_runs
evaluate_runs = refl

paths_run :
    collect_field_paths age_node [] ≡ codes "age" ∷ codes "age" ∷ codes "tags.1" ∷ codes "name" ∷ []
unfolding query_runs
paths_run = refl

ann-IsJson : IsJson ann
unfolding IsJson query_runs
ann-IsJson = (refl, tt, (refl, (tt, (tt, tt)), tt))

ann-IsJson' : IsJson ann'
unfolding IsJson query_runs
ann-IsJson' = (refl, (tt, (tt, tt)), (refl, tt, tt))

is_equal-equivalence_example :
    (is_equal ann ann ≡ true)
    × (is_equal ann ann' ≡ is_equal ann' ann)
    × ((is_equal ann ann' && is_equal ann' null && not (is_equal ann null)) ≡ false)
is_equal-equivalence_example = is_equal-equivalence ann ann' null ann-IsJson ann-IsJson'

evaluate_query-is_equal_example : evaluate_query age_node ann ≡ evaluate_query age_node ann'
unfolding query_runs
evaluate_query-is_equal_example =
    evaluate_query-is_equal age_node ann ann' ann-IsJson ann-IsJson' refl

parse_where-Means_example : Means (ok age_node) true (matches_where age_where)
unfolding parser_runs meaning_runs
parse_where-Means_example = parse_where-Means age_where

-- A list of queries that is no array is refused.
refused : parse_where (field (codes "$or") null no_fields) ≡ err query_error
unfolding parser_runs
refused = refl

parse_schema_where-Means_example :
    Means
      (parse_schema_where (schema (some (codes "id")) [] []) age_where)
      true
      (matches_where age_where)
unfolding parser_runs meaning_runs is_plain is_group under is_known extract_known_columns
parse_schema_where-Means_example =
    parse_schema_where-Means (schema (some (codes "id")) [] []) age_where refl

-- A dialect that writes paths as they are, and numbers its placeholders from 1.
abbrev plain_dialect : SqlDialect Value
plain_dialect = record {
  scalar_at = λ path hint. path.source;
  path_exists = λ path. codes "has " ++ path.source;
  placeholder = λ n. codes "$" ++ decimal (suc n);
  coerce_param = λ v. v;
}

abbrev age_sql : SqlFragment Value
age_sql = record {
  sql = codes "((age > $1) AND (age <= $2)) AND (NOT ((tags.1 = $3) OR (has name)))";
  params = num (pos 18) ∷ num (pos 30) ∷ num (pos 1) ∷ [];
}

compile_runs : compile_where age_node plain_dialect ≡ ok age_sql
unfolding compiler_runs decimal
compile_runs = refl

compile_where-Binds_example :
    Binds plain_dialect (ok age_sql) true [] (num (pos 18) ∷ num (pos 30) ∷ num (pos 1) ∷ [])
unfolding compiler_runs is_compilable operands is_list_compare compared_values
compile_where-Binds_example = compile_where-Binds plain_dialect age_node
