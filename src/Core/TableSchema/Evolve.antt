-- ===== src/Core/TableSchema/Evolve.antt =====
-- src/core/table-schema.ts: evolveSchemaAddKey and evolveSchemaAddIndex.
mod Agree
mod Grow
pub mod Valid
use kvdb_nodejs.Prelude.{
  ℕ, suc, ◌+◌, ◌≡◌, Bool, true, false, ◌&&◌, ◌||◌, not, List, [], ◌∷◌, ◌++◌, map, Option, none,
  some, Text, codes, ◌==◌, text_keys, get_or, find_row, join, if◌then◌else◌,
}
use kvdb_nodejs.Core.Failure.{Failure, Result, ok, err, ◌>>=◌, ◌>>◌, throw_if}
use kvdb_nodejs.Core.TableSchema.{
  schema_error, KeyIndex, no_index, plain_index, index_options, KeyDefinition, Keys,
  IndexDefinition, TableSchema, NormalIndex, NormalizedSchema, columns_of, normalize_table_schema,
  is_identifier, is_reserved, is_listed, inherited_names, is_known_type, is_default_of, is_required,
  is_index_name, is_empty, all_known,
}

abbrev pub index_name_or : Text → Option Text → Text
index_name_or name none = name ++ codes "_idx"
index_name_or name (some index_name) = index_name

-- The index that a new key brings with it.
unfoldable pub new_index : Text → KeyIndex → List NormalIndex
new_index name no_index = []
new_index name plain_index =
    record { name = some (name ++ codes "_idx"); keys = name ∷ []; unique = none } ∷ []
new_index name (index_options index_name unique) =
    record { name = some (index_name_or name index_name); keys = name ∷ []; unique = unique } ∷ []

abbrev pub with_key : Text → KeyDefinition → NormalizedSchema → NormalizedSchema
with_key name d norm = record norm {
  keys = norm.keys ++ (name, d) ∷ [];
  indexes = norm.indexes ++ new_index name d.index;
  version = suc norm.version;
}

-- `existing` is what the keys have under the name, or what every object inherits under it.
-- `same_json` compares the JSON texts of two definitions.
unfoldable pub add_or_keep :
    (KeyDefinition → KeyDefinition → Bool)
    → Text
    → KeyDefinition
    → NormalizedSchema
    → Option KeyDefinition
    → Result NormalizedSchema
add_or_keep same_json name d norm (some existing) =
    if same_json existing d then ok norm else err schema_error
add_or_keep same_json name d norm none =
    if is_listed name inherited_names then err schema_error else ok (with_key name d norm)

unfoldable pub evolve_schema_add_key :
    (KeyDefinition → KeyDefinition → Bool)
    → TableSchema
    → Text
    → KeyDefinition
    → Result NormalizedSchema
evolve_schema_add_key same_json s name d =
    let norm = normalize_table_schema s in
    throw_if (not (is_identifier name)) schema_error
    >> (throw_if (is_reserved name true) schema_error
        >> (throw_if (name == norm.primary_name) schema_error
            >> (throw_if (is_required d) schema_error
                >> (throw_if (not (is_known_type d.type)) schema_error
                    >> (throw_if (not (is_default_of d d.default)) schema_error
                        >> add_or_keep same_json name d norm (find_row name norm.keys))))))

abbrev same_flag : Bool → Bool → Bool
same_flag true b = b
same_flag false b = not b

unfoldable pub has_index : List Text → Option Bool → List NormalIndex → Bool
has_index cols unique [] = false
has_index cols unique (index ∷ indexes) =
    join (codes ",") index.keys == join (codes ",") cols
      && same_flag (get_or false index.unique) (get_or false unique)
    || has_index cols unique indexes

unfoldable pub evolve_schema_add_index : TableSchema → IndexDefinition → Result NormalizedSchema
evolve_schema_add_index s index =
    let norm = normalize_table_schema s in
    let cols = columns_of index in
    let name = index_name_or (join (codes "_") cols) index.name in
    throw_if (is_empty cols) schema_error
    >> (throw_if (not (all_known norm.primary_name norm.keys cols)) schema_error
        >> (throw_if (not (is_index_name index.name)) schema_error
            >> (if has_index cols index.unique norm.indexes
                then ok norm
                else ok (record norm {
                  indexes =
                      norm.indexes
                      ++ record { name = some name; keys = cols; unique = index.unique } ∷ [];
                  version = suc norm.version;
                }))))

-- A normalized schema as a schema, which is what `validateMultiKeySchema` takes.
abbrev pub index_of : NormalIndex → IndexDefinition
index_of index = record {
  name = index.name;
  keys = some index.keys;
  columns = some index.keys;
  unique = index.unique;
}

unfoldable pub as_schema : NormalizedSchema → TableSchema
as_schema norm = record {
  primary_key = some (record { name = norm.primary_name; type = some norm.primary_type });
  keys = some norm.keys;
  columns = some norm.keys;
  indexes = map index_of norm.indexes;
  version = some norm.version;
  timestamps = some norm.timestamps;
}
