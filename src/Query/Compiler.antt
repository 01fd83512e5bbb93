-- ===== src/Query/Compiler.antt =====
-- src/query/compiler.ts: conditions as SQL text with bound parameters.
pub mod Bound
use kvdb_nodejs.Prelude.{
  join, ℕ, zero, suc, ◌+◌, ◌≡◌, refl, Bool, true, false, ◌&&◌, ◌||◌, not, Option, none, some, List,
  [], ◌∷◌, ◌++◌, map, if◌then◌else◌, Text, codes, length,
}
use kvdb_nodejs.Core.Failure.{Failure, Result, ok, err, thrown, kvdb_query_error, ◌>>=◌}
use kvdb_nodejs.Query.Value.{
  Value, undefined, null, bool, num, str, array, object, Items, no_items, item,
}
use kvdb_nodejs.Query.Ast.{
  CompareOp, eq_op, ne_op, gt_op, gte_op, lt_op, lte_op, in_op, nin_op, FieldPath, QueryNode, and,
  or, nor, not_node, cmp, exists, elem_match, match_all, Nodes, no_nodes, node, SortSpec, Direction,
  ascending, descending,
}
use kvdb_nodejs.Query.Parser.{query_error}

-- `SqlDialect`, with the engine's type of bound parameters.
pub record SqlDialect (P : Type 0) : Type 0 where
  pub scalar_at : FieldPath → Option Value → Text
  pub path_exists : FieldPath → Text
  pub placeholder : ℕ → Text
  pub coerce_param : Value → P

-- A piece of SQL with the parameters that are bound so far.
pub record SqlFragment (P : Type 0) : Type 0 where
  pub sql : Text
  pub params : List P

unfoldable pub in_brackets : Text → Text
in_brackets t = codes "(" ++ t ++ codes ")"

pub data Connective : Type 0 where
  and_word or_word : Connective

abbrev pub word_of : Connective → Text
word_of and_word = codes " AND "
word_of or_word = codes " OR "

-- `combine` on the pieces of the children.
unfoldable pub combined : Connective → List Text → Text
combined and_word [] = codes "1=1"
combined or_word [] = codes "1=0"
combined connective (t ∷ ts) = join (word_of connective) (map in_brackets (t ∷ ts))

-- The SQL sign of a comparison.
abbrev pub sign_of : CompareOp → Text
sign_of gt_op = codes ">"
sign_of gte_op = codes ">="
sign_of lt_op = codes "<"
sign_of lte_op = codes "<="
sign_of op = codes "="

abbrev pub direction_word : Direction → Text
direction_word ascending = codes " ASC"
direction_word descending = codes " DESC"

module _ {P : Type 0} where
  unfoldable pub bind : SqlDialect P → List P → Value → SqlFragment P
  bind dialect params v = record {
    sql = dialect.placeholder (length params);
    params = params ++ dialect.coerce_param v ∷ [];
  }

  unfoldable pub bind_items : SqlDialect P → List P → Items → List Text × List P
  bind_items dialect params no_items = ([], params)
  bind_items dialect params (item v vs) =
      let bound = bind dialect params v in
      let rest = bind_items dialect bound.params vs in (bound.sql ∷ rest.0, rest.1)

  -- `left OP placeholder`
  unfoldable pub with_sign : SqlDialect P → List P → Text → Text → Value → SqlFragment P
  with_sign dialect params left sign v =
      let bound = bind dialect params v in
      record { sql = left ++ codes " " ++ sign ++ codes " " ++ bound.sql; params = bound.params }

  unfoldable pub in_list : SqlDialect P → List P → Text → Text → Items → SqlFragment P
  in_list dialect params left word vs =
      let bound = bind_items dialect params vs in
      record { sql = left ++ word ++ in_brackets (join (codes ", ") bound.0); params = bound.1 }

  unfoldable pub compile_compare :
      SqlDialect P → CompareOp → FieldPath → Value → List P → Result (SqlFragment P)
  compile_compare dialect in_op path (array no_items) params =
      ok (record { sql = codes "1=0"; params = params })
  compile_compare dialect in_op path (array (item v vs)) params =
      ok (in_list dialect params (dialect.scalar_at path (some v)) (codes " IN ") (item v vs))
  compile_compare dialect in_op path v params = err query_error
  compile_compare dialect nin_op path (array no_items) params =
      ok (record { sql = codes "1=1"; params = params })
  compile_compare dialect nin_op path (array (item v vs)) params =
      ok (in_list dialect params (dialect.scalar_at path (some v)) (codes " NOT IN ") (item v vs))
  compile_compare dialect nin_op path v params = err query_error
  compile_compare dialect ne_op path v params =
      let left = dialect.scalar_at path (some v) in
      let bound = bind dialect params v in
      ok (record {
        sql = in_brackets (left ++ codes " IS NULL OR " ++ left ++ codes " <> " ++ bound.sql);
        params = bound.params;
      })
  compile_compare dialect eq_op path null params =
      ok (record { sql = dialect.scalar_at path (some null) ++ codes " IS NULL"; params = params })
  compile_compare dialect op path v params =
      ok (with_sign dialect params (dialect.scalar_at path (some v)) (sign_of op) v)

  unfoldable pub negated : SqlFragment P → SqlFragment P
  negated f = record { sql = codes "NOT " ++ in_brackets f.sql; params = f.params }

  unfoldable pub combine : Connective → List Text × List P → SqlFragment P
  combine connective pieces = record { sql = combined connective pieces.0; params = pieces.1 }

  unfoldable mutual
    pub walk_sql : SqlDialect P → QueryNode → List P → Result (SqlFragment P)
    walk_sql dialect match_all params = ok (record { sql = codes "1=1"; params = params })
    walk_sql dialect (and children) params =
        walk_children dialect children params >>= λ pieces. ok (combine and_word pieces)
    walk_sql dialect (or children) params =
        walk_children dialect children params >>= λ pieces. ok (combine or_word pieces)
    walk_sql dialect (nor children) params =
        walk_children dialect children params >>= λ pieces. ok (negated (combine or_word pieces))
    walk_sql dialect (not_node child) params = walk_sql dialect child params >>= λ f. ok (negated f)
    walk_sql dialect (exists path true) params =
        ok (record { sql = dialect.path_exists path; params = params })
    walk_sql dialect (exists path false) params =
        ok (negated (record { sql = dialect.path_exists path; params = params }))
    walk_sql dialect (cmp op path v) params = compile_compare dialect op path v params
    walk_sql dialect (elem_match path child) params = err query_error

    pub walk_children : SqlDialect P → Nodes → List P → Result (List Text × List P)
    walk_children dialect no_nodes params = ok ([], params)
    walk_children dialect (node n ns) params = walk_sql dialect n params >>= λ f.
        walk_children dialect ns f.params >>= λ rest. ok (f.sql ∷ rest.0, rest.1)

  unfoldable pub compile_where : QueryNode → SqlDialect P → Result (SqlFragment P)
  compile_where n dialect = walk_sql dialect n []

  unfoldable pub compile_order_by : List SortSpec → SqlDialect P → Text
  compile_order_by sort dialect = join (codes ", ") (
      map (λ (spec : SortSpec). dialect.scalar_at spec.path none ++ direction_word spec.direction)
        sort)

-- What a test unfolds to compile a concrete query.
unfoldable pub compiler_runs : Unit {0}
unfolding compile_where walk_sql compile_compare combine combined negated with_sign bind bind_items
    in_list join in_brackets
compiler_runs = tt
