-- ===== src/Query/Compiler/Bound.antt =====
-- Which queries the SQL back ends accept, and the parameters that they bind.
use kvdb_nodejs.Prelude.{
  and_false, false_and, and_both, ◌≡◌, refl, sym, ap, ◌∙◌, Bool, true, false, ◌&&◌, List, [], ◌∷◌,
  ◌++◌, map, Text,
}
use mathlib.Core.List.{append_assoc, append-nil}
use kvdb_nodejs.Core.Failure.{Result, ok, err, ◌>>=◌}
use kvdb_nodejs.Query.Value.{Value, null, array, Items, no_items, item}
use kvdb_nodejs.Query.Ast.{
  CompareOp, eq_op, in_op, nin_op, FieldPath, QueryNode, and, or, nor, not_node, cmp, exists,
  elem_match, match_all, Nodes, no_nodes, node,
}
use kvdb_nodejs.Query.Parser.{query_error}
use kvdb_nodejs.Query.Compiler.{
  SqlDialect, SqlFragment, Connective, and_word, or_word, bind, bind_items, with_sign, in_list,
  compile_compare, negated, combine, walk_sql, walk_children, compile_where,
}

-- A list is compared with an array.
unfoldable pub is_list_compare : CompareOp → Value → Bool
is_list_compare in_op (array vs) = true
is_list_compare nin_op (array vs) = true
is_list_compare in_op v = false
is_list_compare nin_op v = false
is_list_compare op v = true

unfoldable pub item_list : Items → List Value
item_list no_items = []
item_list (item v vs) = v ∷ item_list vs

-- The values that a comparison hands to the engine: the items of a list, none for a test for null.
unfoldable pub compared_values : CompareOp → Value → List Value
compared_values in_op (array vs) = item_list vs
compared_values nin_op (array vs) = item_list vs
compared_values eq_op null = []
compared_values op v = v ∷ []

-- No `$elemMatch`, and arrays where lists are wanted.
unfoldable mutual
  pub is_compilable : QueryNode → Bool
  is_compilable (and ns) = are_compilable ns
  is_compilable (or ns) = are_compilable ns
  is_compilable (nor ns) = are_compilable ns
  is_compilable (not_node n) = is_compilable n
  is_compilable (cmp op path v) = is_list_compare op v
  is_compilable (elem_match path n) = false
  is_compilable (exists path flag) = true
  is_compilable match_all = true

  pub are_compilable : Nodes → Bool
  are_compilable no_nodes = true
  are_compilable (node n ns) = is_compilable n && are_compilable ns

-- The values of a query, from left to right.
unfoldable mutual
  pub operands : QueryNode → List Value
  operands (and ns) = all_operands ns
  operands (or ns) = all_operands ns
  operands (nor ns) = all_operands ns
  operands (not_node n) = operands n
  operands (cmp op path v) = compared_values op v
  operands (elem_match path n) = []
  operands (exists path flag) = []
  operands match_all = []

  pub all_operands : Nodes → List Value
  all_operands no_nodes = []
  all_operands (node n ns) = operands n ++ all_operands ns

module _ {P : Type 0} (dialect : SqlDialect P) where
  -- The new parameters stand behind the ones that were there.
  abbrev pub Binds : Result (SqlFragment P) → Bool → List P → List Value → Type 0
  Binds (ok f) valid before vs = (valid ≡ true) × (f.params ≡ before ++ map dialect.coerce_param vs)
  Binds (err e) valid before vs = (valid ≡ false) × (e ≡ query_error)

  abbrev pub AllBind : Result (List Text × List P) → Bool → List P → List Value → Type 0
  AllBind (ok pieces) valid before vs =
      (valid ≡ true) × (pieces.1 ≡ before ++ map dialect.coerce_param vs)
  AllBind (err e) valid before vs = (valid ≡ false) × (e ≡ query_error)

  bind_items-params :
      (params : List P) (vs : Items)
      → (bind_items dialect params vs).1 ≡ params ++ map dialect.coerce_param (item_list vs)
  unfolding bind_items bind item_list
  bind_items-params params no_items = sym (append-nil params)
  bind_items-params params (item v vs) =
      bind_items-params (params ++ dialect.coerce_param v ∷ []) vs
      ∙ append_assoc params (dialect.coerce_param v ∷ []) _

  compile_compare-Binds :
      (op : CompareOp) (path : FieldPath) (v : Value) (params : List P)
      → Binds
          (compile_compare dialect op path v params)
          (is_list_compare op v)
          params
          (compared_values op v)
  unfolding compile_compare is_list_compare compared_values with_sign bind in_list item_list
  compile_compare-Binds in_op path (array no_items) params = (refl, sym (append-nil params))
  compile_compare-Binds nin_op path (array no_items) params = (refl, sym (append-nil params))
  compile_compare-Binds in_op path (array (item v vs)) params =
      (refl, bind_items-params params (item v vs))
  compile_compare-Binds nin_op path (array (item v vs)) params =
      (refl, bind_items-params params (item v vs))
  compile_compare-Binds eq_op path null params = (refl, sym (append-nil params))
  compile_compare-Binds op path v params = (refl, refl)

  -- The parameters of two pieces, one behind the other.
  after_both :
      (params middle later : List P) (xs ys : List Value)
      → middle ≡ params ++ map dialect.coerce_param xs
      → later ≡ middle ++ map dialect.coerce_param ys
      → later ≡ params ++ map dialect.coerce_param (xs ++ ys)
  after_both params middle later xs ys h k =
      k
      ∙ ap (λ l. l ++ map dialect.coerce_param ys) h
      ∙ append_assoc params (map dialect.coerce_param xs) (map dialect.coerce_param ys)
      ∙ ap (λ l. params ++ l) (sym (map-append xs ys))
    where
      map-append :
          (vs ws : List Value)
          → map dialect.coerce_param (vs ++ ws)
            ≡ map dialect.coerce_param vs ++ map dialect.coerce_param ws
      map-append [] ws = refl
      map-append (v ∷ vs) ws = ap (λ l. dialect.coerce_param v ∷ l) (map-append vs ws)

  AllBind-pieces :
      (f : SqlFragment P) (r : Result (List Text × List P)) (v w : Bool) (params : List P)
      (xs ys : List Value)
      → Binds (ok f) v params xs
      → AllBind r w f.params ys
      → AllBind (r >>= λ rest. ok (f.sql ∷ rest.0, rest.1)) (v && w) params (xs ++ ys)
  AllBind-pieces f (err e) v w params xs ys h k = (and_false h.0 k.0, k.1)
  AllBind-pieces f (ok pieces) v w params xs ys h k =
      (and_both h.0 k.0, after_both params f.params pieces.1 xs ys h.1 k.1)

  AllBind-join :
      (r : Result (SqlFragment P)) (next : List P → Result (List Text × List P)) (v w : Bool)
      (params : List P) (xs ys : List Value)
      → Binds r v params xs
      → ((later : List P) → AllBind (next later) w later ys)
      → AllBind
          (r >>= λ f. next f.params >>= λ rest. ok (f.sql ∷ rest.0, rest.1))
          (v && w)
          params
          (xs ++ ys)
  AllBind-join (err e) next v w params xs ys h k = (false_and w h.0, h.1)
  AllBind-join (ok f) next v w params xs ys h k =
      AllBind-pieces f (next f.params) v w params xs ys h (k f.params)

  Binds-combine :
      (r : Result (List Text × List P)) (c : Connective) (v : Bool) (params : List P)
      (xs : List Value)
      → AllBind r v params xs
      → Binds (r >>= λ pieces. ok (combine c pieces)) v params xs
        × Binds (r >>= λ pieces. ok (negated (combine c pieces))) v params xs
  unfolding combine negated
  Binds-combine (err e) c v params xs h = (h, h)
  Binds-combine (ok pieces) c v params xs h = (h, h)

  Binds-negated :
      (r : Result (SqlFragment P)) (v : Bool) (params : List P) (xs : List Value)
      → Binds r v params xs
      → Binds (r >>= λ f. ok (negated f)) v params xs
  unfolding negated
  Binds-negated (err e) v params xs h = h
  Binds-negated (ok f) v params xs h = h

  mutual
    unfolding walk_sql is_compilable operands negated

    walk_sql-Binds :
        (n : QueryNode) (params : List P)
        → Binds (walk_sql dialect n params) (is_compilable n) params (operands n)
    walk_sql-Binds match_all params = (refl, sym (append-nil params))
    walk_sql-Binds (and ns) params =
        (Binds-combine (walk_children dialect ns params) and_word _ params _
          (walk_children-Bind ns params)).0
    walk_sql-Binds (or ns) params =
        (Binds-combine (walk_children dialect ns params) or_word _ params _
          (walk_children-Bind ns params)).0
    walk_sql-Binds (nor ns) params =
        (Binds-combine (walk_children dialect ns params) or_word _ params _
          (walk_children-Bind ns params)).1
    walk_sql-Binds (not_node n) params =
        Binds-negated (walk_sql dialect n params) _ params _ (walk_sql-Binds n params)
    walk_sql-Binds (exists path true) params = (refl, sym (append-nil params))
    walk_sql-Binds (exists path false) params = (refl, sym (append-nil params))
    walk_sql-Binds (cmp op path v) params = compile_compare-Binds op path v params
    walk_sql-Binds (elem_match path n) params = (refl, refl)

    walk_children-Bind :
        (ns : Nodes) (params : List P)
        → AllBind (walk_children dialect ns params) (are_compilable ns) params (all_operands ns)
    walk_children-Bind no_nodes params = (refl, sym (append-nil params))
    walk_children-Bind (node n ns) params =
        AllBind-join (walk_sql dialect n params) (walk_children dialect ns) _ _ params _ _
          (walk_sql-Binds n params) (λ later. walk_children-Bind ns later)

  -- `compileWhere` accepts the queries without `$elemMatch` whose `$in` and `$nin` have arrays, and
  -- binds the values that they compare with, from left to right, those of a list in its order and
  -- none for a test for null; it refuses every other query with a query error.
  pub compile_where-Binds :
      (n : QueryNode) → Binds (compile_where n dialect) (is_compilable n) [] (operands n)
  unfolding compile_where
  compile_where-Binds n = walk_sql-Binds n []
