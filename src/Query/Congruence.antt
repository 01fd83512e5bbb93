-- ===== src/Query/Congruence.antt =====
-- Queries on documents that `isEqual` does not tell apart.
mod Paths
mod Compare
use kvdb_nodejs.Prelude.{
  and_split, and_both, ℕ, zero, suc, ◌-◌, ◌<◌, ◌≡◌, ◌⊎◌, refl, sym, ap, ◌∙◌, Bool, true, false,
  ◌&&◌, ◌||◌, not, Option, none, some, List, [], ◌∷◌, arith, if◌then◌else◌, ◌==◌, ==_iff,
  Bool-cases, Option-cases, text_keys, Text, codes, eqb, ltb, eqb_iff, inl, inr, some_injective,
  some_ne_none, is_some,
}
use kvdb_nodejs.Prelude.Decimal.{decimal}
use mathlib.Core.Bool.{false≢true}
use mathlib.Core.Path.{subst}
use kvdb_nodejs.Query.Value.{
  ℤ, pos, negsuc, int_eqb, Value, undefined, null, bool, num, str, array, object, Items, no_items,
  item, Fields, no_fields, field, count_items, count_fields, own, item_at, own_position,
  own_of_array, is_equal, items_equal, fields_equal, IsJson, AreJson, HasJson,
}
use kvdb_nodejs.Query.Value.Equal.{int_eqb_eq, fields_equal-own, own-IsJson}
use kvdb_nodejs.Query.Value.Equivalence.{
  is_equal_self, is_equal_sym, is_equal_trans, fields_equal_sym,
}
use kvdb_nodejs.Query.Ast.{
  CompareOp, eq_op, ne_op, gt_op, gte_op, lt_op, lte_op, in_op, nin_op, PathSegment, key, index,
  FieldPath, SourceKind, enter, column, value, QueryNode, and, or, nor, not_node, cmp, exists,
  elem_match, match_all, Nodes, no_nodes, node, own_of_value, at_index, follow, and_then,
  walk_segments, extract_value, number_of, number_test, some_equal, evaluate_compare, some_item,
  some_element, evaluate_query, every_node, some_node,
}
use kvdb_nodejs.Query.Congruence.Paths.{extract_value-Alike}
use kvdb_nodejs.Query.Congruence.Compare.{evaluate_compare-Alike, some_element-Alike, is_some-Alike}

mutual
  unfolding evaluate_query

  respects :
      (n : QueryNode) (v w : Value)
      → IsJson v
      → IsJson w
      → is_equal v w ≡ true
      → evaluate_query n v ≡ evaluate_query n w
  respects match_all v w hv hw h = refl
  respects (and ns) v w hv hw h = every_node-respects ns v w hv hw h
  respects (or ns) v w hv hw h = some_node-respects ns v w hv hw h
  respects (nor ns) v w hv hw h = ap not (some_node-respects ns v w hv hw h)
  respects (not_node n) v w hv hw h = ap not (respects n v w hv hw h)
  respects (exists path true) v w hv hw h = is_some-Alike _ _ (extract_value-Alike path v w hv hw h)
  respects (exists path false) v w hv hw h =
      ap not (is_some-Alike _ _ (extract_value-Alike path v w hv hw h))
  respects (cmp op path t) v w hv hw h =
      evaluate_compare-Alike op _ _ t (extract_value-Alike path v w hv hw h)
  respects (elem_match path n) v w hv hw h =
      some_element-Alike _ _ _ (λ a b ha hb q. respects n a b ha hb q)
        (extract_value-Alike path v w hv hw h)

  every_node-respects :
      (ns : Nodes) (v w : Value)
      → IsJson v
      → IsJson w
      → is_equal v w ≡ true
      → every_node ns v ≡ every_node ns w
  every_node-respects no_nodes v w hv hw h = refl
  every_node-respects (node n ns) v w hv hw h =
      rw (respects n v w hv hw h, every_node-respects ns v w hv hw h) refl

  some_node-respects :
      (ns : Nodes) (v w : Value)
      → IsJson v
      → IsJson w
      → is_equal v w ≡ true
      → some_node ns v ≡ some_node ns w
  some_node-respects no_nodes v w hv hw h = refl
  some_node-respects (node n ns) v w hv hw h =
      rw (respects n v w hv hw h, some_node-respects ns v w hv hw h) refl

-- A query answers alike on two documents that `isEqual` takes for equal, where the keys of each
-- object in them are distinct.
pub evaluate_query-is_equal :
    (n : QueryNode) (v w : Value)
    → IsJson v
    → IsJson w
    → is_equal v w ≡ true
    → evaluate_query n v ≡ evaluate_query n w
evaluate_query-is_equal = respects
