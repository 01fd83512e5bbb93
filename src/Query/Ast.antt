-- ===== src/Query/Ast.antt =====
-- src/query/ast.ts, src/query/evaluator.ts without the sort, and src/query/paths.ts.
use kvdb_nodejs.Prelude.{
  suc, ◌-◌, Bool, true, false, ◌&&◌, ◌||◌, not, Option, none, some, List, [], ◌∷◌, ◌++◌, map,
  if◌then◌else◌, text_keys, Text, text_beq, ltb, is_some,
}
use kvdb_nodejs.Query.Value.{
  ℤ, pos, negsuc, int_eqb, int_ltb, Value, undefined, null, num, array, object, Items, no_items,
  item, count_items, own, item_at, own_of_array, is_equal, int_eqb, own_position, count_fields,
}

pub data CompareOp : Type 0 where
  eq_op ne_op gt_op gte_op lt_op lte_op in_op nin_op : CompareOp

pub data PathSegment : Type 0 where
  key : Text → PathSegment
  index : ℤ → PathSegment

pub data SourceKind : Type 0 where
  value column : SourceKind

pub record FieldPath : Type 0 where
  pub segments : List PathSegment
  pub source : Text
  pub source_kind : Option SourceKind

mutual
  pub data QueryNode : Type 0 where
    and or nor : Nodes → QueryNode
    not_node : QueryNode → QueryNode
    cmp : CompareOp → FieldPath → Value → QueryNode
    exists : FieldPath → Bool → QueryNode
    elem_match : FieldPath → QueryNode → QueryNode
    match_all : QueryNode

  pub data Nodes : Type 0 where
    no_nodes : Nodes
    node : QueryNode → Nodes → Nodes

-- One segment of a path: a property of an object or an array, or an item of an array, where a
-- negative index counts from the end.
unfoldable pub own_of_value : Text → Value → Option Value
own_of_value k (object fs) = own k fs
own_of_value k (array vs) = own_of_array k vs
own_of_value k _ = none

unfoldable pub at_index : ℤ → Value → Option Value
at_index (pos n) (array vs) = item_at n vs
at_index (negsuc n) (array vs) =
    if ltb n (count_items vs) then item_at (count_items vs - suc n) vs else none
at_index i _ = none

unfoldable pub follow : PathSegment → Value → Option Value
follow (key k) v = own_of_value k v
follow (index i) v = at_index i v

-- A segment that is missing ends the walk.
abbrev pub and_then : Option Value → (Value → Option Value) → Option Value
and_then none next = none
and_then (some v) next = next v

unfoldable pub walk_segments : List PathSegment → Value → Option Value
walk_segments [] v = some v
walk_segments (s ∷ ss) v = and_then (follow s v) (λ w. walk_segments ss w)

-- A path into a column starts at the property that is named like the column.
unfoldable pub enter : Option SourceKind → Text → Value → Option Value
enter (some column) source doc = own_of_value source doc
enter _ source doc = some doc

-- `extractValue`: none is `exists: false`.
unfoldable pub extract_value : Value → FieldPath → Option Value
extract_value doc path =
    and_then (enter path.source_kind path.source doc) (walk_segments path.segments)

-- The number of a value that exists and is one.
unfoldable pub number_of : Option Value → Option ℤ
number_of (some (num n)) = some n
number_of _ = none

-- `actual > target` and the like, on numbers only.
unfoldable pub number_test : (ℤ → ℤ → Bool) → Option ℤ → Option ℤ → Bool
number_test test (some a) (some t) = test a t
number_test test _ _ = false

unfoldable pub some_equal : Value → Items → Bool
some_equal v no_items = false
some_equal v (item t ts) = is_equal v t || some_equal v ts

-- `target.includes(null) || target.includes(undefined)`
unfoldable pub includes_nothing : Items → Bool
includes_nothing no_items = false
includes_nothing (item null ts) = true
includes_nothing (item undefined ts) = true
includes_nothing (item t ts) = includes_nothing ts

unfoldable pub is_nothing : Value → Bool
is_nothing null = true
is_nothing undefined = true
is_nothing _ = false

unfoldable pub is_undefined : Value → Bool
is_undefined undefined = true
is_undefined _ = false

unfoldable pub evaluate_compare : CompareOp → Option Value → Value → Bool
evaluate_compare eq_op none target = is_nothing target
evaluate_compare eq_op (some v) target = is_equal v target
evaluate_compare ne_op none target = not (is_undefined target)
evaluate_compare ne_op (some v) target = not (is_equal v target)
evaluate_compare gt_op actual target =
    number_test (λ a t. int_ltb t a) (number_of actual) (number_of (some target))
evaluate_compare gte_op actual target =
    number_test (λ a t. not (int_ltb a t)) (number_of actual) (number_of (some target))
evaluate_compare lt_op actual target =
    number_test int_ltb (number_of actual) (number_of (some target))
evaluate_compare lte_op actual target =
    number_test (λ a t. not (int_ltb t a)) (number_of actual) (number_of (some target))
evaluate_compare in_op none (array ts) = includes_nothing ts
evaluate_compare in_op (some v) (array ts) = some_equal v ts
evaluate_compare in_op actual _ = false
evaluate_compare nin_op none (array ts) = not (includes_nothing ts)
evaluate_compare nin_op (some v) (array ts) = not (some_equal v ts)
evaluate_compare nin_op actual _ = true

-- `array.some`
unfoldable pub some_item : (Value → Bool) → Items → Bool
some_item p no_items = false
some_item p (item v vs) = p v || some_item p vs

-- `actual.some(p)` where `actual` exists and is an array.
unfoldable pub some_element : (Value → Bool) → Option Value → Bool
some_element p (some (array vs)) = some_item p vs
some_element p _ = false

unfoldable mutual
  pub evaluate_query : QueryNode → Value → Bool
  evaluate_query match_all doc = true
  evaluate_query (and children) doc = every_node children doc
  evaluate_query (or children) doc = some_node children doc
  evaluate_query (nor children) doc = not (some_node children doc)
  evaluate_query (not_node child) doc = not (evaluate_query child doc)
  evaluate_query (exists path true) doc = is_some (extract_value doc path)
  evaluate_query (exists path false) doc = not (is_some (extract_value doc path))
  evaluate_query (cmp op path target) doc = evaluate_compare op (extract_value doc path) target
  evaluate_query (elem_match path child) doc =
      some_element (λ v. evaluate_query child v) (extract_value doc path)

  pub every_node : Nodes → Value → Bool
  every_node no_nodes doc = true
  every_node (node n ns) doc = evaluate_query n doc && every_node ns doc

  pub some_node : Nodes → Value → Bool
  some_node no_nodes doc = false
  some_node (node n ns) doc = evaluate_query n doc || some_node ns doc

-- `walk` and `collectFieldPaths`: the sources of the paths, in the order of the query.
unfoldable mutual
  pub walk : QueryNode → List Text
  walk (and children) = walk_nodes children
  walk (or children) = walk_nodes children
  walk (nor children) = walk_nodes children
  walk (not_node child) = walk child
  walk (elem_match path child) = path.source ∷ walk child
  walk (cmp op path target) = path.source ∷ []
  walk (exists path flag) = path.source ∷ []
  walk match_all = []

  pub walk_nodes : Nodes → List Text
  walk_nodes no_nodes = []
  walk_nodes (node n ns) = walk n ++ walk_nodes ns

pub data Direction : Type 0 where
  ascending descending : Direction

pub record SortSpec : Type 0 where
  pub path : FieldPath
  pub direction : Direction

unfoldable pub collect_field_paths : QueryNode → List SortSpec → List Text
collect_field_paths n sort = walk n ++ map (λ (s : SortSpec). s.path.source) sort

-- What a test unfolds to run a query on a concrete document.
unfoldable pub query_runs : Unit {0}
unfolding evaluate_query evaluate_compare number_test number_of extract_value enter walk_segments
    follow own_of_value own text_beq int_ltb at_index item_at is_equal int_eqb some_equal
    includes_nothing is_nothing is_undefined some_item some_element own_of_array own_position
    count_items count_fields walk collect_field_paths
query_runs = tt
