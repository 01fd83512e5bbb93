-- ===== src/Query/Parser/Schema.antt =====
-- src/query/parser.ts: parseSchemaWhere, parseColumnField, parseSort and parseFindOptions.
pub mod Plain
pub mod Parts
pub mod Agree
use kvdb_nodejs.Prelude.{
  ℕ, zero, suc, ◌+◌, ◌-◌, ◌*◌, ◌^◌, ◌≡◌, refl, Bool, true, false, ◌&&◌, ◌||◌, not, Option, none,
  some, List, [], ◌∷◌, ◌++◌, map, if◌then◌else◌, ◌==◌, text_keys, Text, text_beq, codes, ltb, leb,
  eqb, split, is_prefix, get_or,
}
use kvdb_nodejs.Core.Failure.{
  Failure, Result, ok, err, thrown, kvdb_query_error, ◌>>=◌, ◌>>◌, throw_if,
}
use kvdb_nodejs.Query.Value.{
  ℤ, pos, negsuc, Value, undefined, null, bool, num, str, array, object, Items, no_items, item,
  Fields, no_fields, field,
}
use kvdb_nodejs.Query.Ast.{
  FieldPath, SourceKind, value, column, QueryNode, and, or, nor, not_node, match_all, Nodes,
  no_nodes, node, SortSpec, Direction, ascending,
}
use kvdb_nodejs.Query.Parser.{
  query_error, is_valid_segment, parse_segments, parse_path, is_forbidden, is_operator, conjunction,
  parse_field,
}

-- What the caller knows of the columns: nothing, a set of names, or a schema with the name of its
-- primary key, its keys and its columns.
pub data KnownSchema : Type 0 where
  no_schema : KnownSchema
  names : List Text → KnownSchema
  schema : Option Text → List Text → List Text → KnownSchema

-- `extractKnownColumns`: an empty name of the primary key is none.
unfoldable pub extract_known_columns : KnownSchema → List Text
extract_known_columns no_schema = []
extract_known_columns (names cols) = cols
extract_known_columns (schema (some (c ∷ name)) keys columns) = (c ∷ name) ∷ keys ++ columns
extract_known_columns (schema primary keys columns) = keys ++ columns

unfoldable pub is_known : Text → List Text → Bool
is_known k [] = false
is_known k (c ∷ cols) = k == c || is_known k cols

abbrev pub first_part : List Text → Text
first_part [] = []
first_part (part ∷ parts) = part

abbrev pub other_parts : List Text → List Text
other_parts [] = []
other_parts (part ∷ parts) = parts

-- The path of a column and of what is in it.
unfoldable pub column_path : List Text → Result FieldPath
column_path parts =
    throw_if (not (is_valid_segment (first_part parts))) query_error
    >> (parse_segments (other_parts parts) >>= λ ss.
        ok (record { segments = ss; source = first_part parts; source_kind = some column }))

unfoldable pub parse_column_field : Text → Value → Result QueryNode
parse_column_field k v = column_path (split b'.' k) >>= λ path. parse_field path v

-- `{ ...parsePath(key), sourceKind: "value" }`
unfoldable pub in_value : FieldPath → FieldPath
in_value path = record { segments = path.segments; source = path.source; source_kind = some value }

unfoldable pub parse_value_field : Text → Value → Result QueryNode
parse_value_field k v = parse_path k >>= λ path. parse_field (in_value path) v

unfoldable pub parse_fields : (Text → Value → Result QueryNode) → Fields → Result Nodes
parse_fields parse no_fields = ok no_nodes
parse_fields parse (field k v fs) =
    parse k v >>= λ n. parse_fields parse fs >>= λ ns. ok (node n ns)

pub data SchemaKey : Type 0 where
  and_part or_part nor_part not_part columns_part value_part unknown_part field_part : SchemaKey

unfoldable pub schema_key : Text → SchemaKey
schema_key k =
    if k == codes "$and"
    then and_part
    else if k == codes "$or"
    then or_part
    else if k == codes "$nor"
    then nor_part
    else if k == codes "$not"
    then not_part
    else if k == codes "columns"
    then columns_part
    else if k == codes "value"
    then value_part
    else if is_operator k
    then unknown_part
    else field_part

-- A field under a known column is read in the column, any other one in the value.
unfoldable pub schema_field : List Text → Text → Value → Result QueryNode
schema_field cols k v =
    if is_known (first_part (split b'.' k)) cols
    then parse_column_field k v
    else parse_value_field k v

-- No part stands for everything, one part for itself.
unfoldable pub join_parts : Nodes → QueryNode
join_parts no_nodes = match_all
join_parts (node n ns) = conjunction n ns

-- The parts of a group, as one part or none.
unfoldable pub group : Nodes → Nodes
group no_nodes = no_nodes
group (node n ns) = node (conjunction n ns) no_nodes

abbrev pub one_part : Result QueryNode → Result Nodes
one_part (ok n) = ok (node n no_nodes)
one_part (err e) = err e

-- The cases of the `switch`, for a value that is an object, an array, and neither.
unfoldable pub object_part : SchemaKey → List Text → Text → Fields → Result QueryNode → Result Nodes
object_part not_part cols k fs sub_where = one_part (sub_where >>= λ n. ok (not_node n))
object_part columns_part cols k fs sub_where =
    parse_fields parse_column_field fs >>= λ ns. ok (group ns)
object_part value_part cols k fs sub_where =
    parse_fields parse_value_field fs >>= λ ns. ok (group ns)
object_part field_part cols k fs sub_where = one_part (schema_field cols k (object fs))
object_part key cols k fs sub_where = err query_error

unfoldable pub array_part : SchemaKey → List Text → Text → Items → Result Nodes → Result Nodes
array_part and_part cols k vs branches = one_part (branches >>= λ ns. ok (and ns))
array_part or_part cols k vs branches = one_part (branches >>= λ ns. ok (or ns))
array_part nor_part cols k vs branches = one_part (branches >>= λ ns. ok (nor ns))
array_part field_part cols k vs branches = one_part (schema_field cols k (array vs))
array_part key cols k vs branches = err query_error

unfoldable pub plain_part : SchemaKey → List Text → Text → Value → Result Nodes
plain_part field_part cols k v = one_part (schema_field cols k v)
plain_part key cols k v = err query_error

abbrev pub join_nodes : Nodes → Nodes → Nodes
join_nodes no_nodes ms = ms
join_nodes (node n ns) ms = node n (join_nodes ns ms)

-- `parseSchemaWhereNode` is `parse_schema_parts`, whose parts are joined.
unfoldable mutual
  pub parse_schema_parts : List Text → Fields → Result Nodes
  parse_schema_parts cols no_fields = ok no_nodes
  parse_schema_parts cols (field k v fs) =
      throw_if (is_forbidden k) query_error
      >> (parse_schema_part cols k v >>= λ ns.
          parse_schema_parts cols fs >>= λ ms. ok (join_nodes ns ms))

  pub parse_schema_part : List Text → Text → Value → Result Nodes
  parse_schema_part cols k (object fs) =
      object_part (schema_key k) cols k fs (parse_schema_parts cols fs >>= λ ns. ok (join_parts ns))
  parse_schema_part cols k (array vs) =
      array_part (schema_key k) cols k vs (parse_schema_branches cols vs)
  parse_schema_part cols k v = plain_part (schema_key k) cols k v

  pub parse_schema_branches : List Text → Items → Result Nodes
  parse_schema_branches cols no_items = ok no_nodes
  parse_schema_branches cols (item (object fs) vs) =
      (parse_schema_parts cols fs >>= λ ns. ok (join_parts ns)) >>= λ n.
      parse_schema_branches cols vs >>= λ ns. ok (node n ns)
  parse_schema_branches cols (item v vs) = err query_error

unfoldable pub parse_schema_where : KnownSchema → Fields → Result QueryNode
parse_schema_where known fs =
    parse_schema_parts (extract_known_columns known) fs >>= λ ns. ok (join_parts ns)

pub record SortInput : Type 0 where
  pub path : Text
  pub direction : Option Direction

unfoldable pub sort_path : List Text → Text → Result FieldPath
sort_path cols path =
    if is_known (first_part (split b'.' path)) cols
    then column_path (split b'.' path)
    else parse_path path

unfoldable pub parse_sort : List Text → List SortInput → Result (List SortSpec)
parse_sort cols [] = ok []
parse_sort cols (spec ∷ specs) = sort_path cols spec.path >>= λ path.
    parse_sort cols specs >>= λ rest.
    ok (record { path = path; direction = get_or ascending spec.direction } ∷ rest)

-- A limit or an offset: none, or a whole number from 0 to 2^53 - 1.
abbrev pub max_safe_integer : ℕ
max_safe_integer = 2 ^ 53 - 1

unfoldable pub is_count : Option ℤ → Bool
is_count none = true
is_count (some (pos n)) = leb n max_safe_integer
is_count (some (negsuc n)) = false

pub record FindInput : Type 0 where
  pub limit : Option ℤ
  pub offset : Option ℤ
  pub sort : Option (List SortInput)

pub record FindOptions : Type 0 where
  pub limit : Option ℤ
  pub offset : Option ℤ
  pub sort : Option (List SortSpec)

unfoldable pub parse_sort_option :
    KnownSchema → Option (List SortInput) → Result (Option (List SortSpec))
parse_sort_option known none = ok none
parse_sort_option known (some specs) =
    parse_sort (extract_known_columns known) specs >>= λ sort. ok (some sort)

unfoldable pub parse_find_options : FindInput → KnownSchema → Result FindOptions
parse_find_options query known =
    throw_if (not (is_count query.limit)) query_error
    >> (throw_if (not (is_count query.offset)) query_error
        >> (parse_sort_option known query.sort >>= λ sort.
            ok (record { limit = query.limit; offset = query.offset; sort = sort })))
