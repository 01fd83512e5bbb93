-- ===== src/Core/TableSchema/Input.antt =====
-- src/core/table-schema.ts: validateKeyValues.
use kvdb_nodejs.Prelude.{
  Bool, true, false, not, List, [], ◌∷◌, Option, none, some, Text, codes, ◌==◌, text_keys, get_or,
  is_some, find_row, if◌then◌else◌,
}
use kvdb_nodejs.Core.Failure.{Result, ok, ◌>>=◌, ◌>>◌, throw_if}
use kvdb_nodejs.Query.Value.{Value, undefined, null}
use kvdb_nodejs.Core.TableSchema.{
  schema_error, KeyType, string_type, integer_type, number_type, boolean_type, KeyDefinition, Keys,
  TableSchema, keys_of, matches_type, is_listed, inherited_names, is_required,
}

abbrev pub Values : Type 0
Values = List (Text × Value)

unfoldable pub check_known : Keys → Values → Result (Unit {0})
check_known keys [] = ok tt
check_known keys ((name, v) ∷ input) =
    throw_if (not (is_some (find_row name keys))) schema_error >> check_known keys input

-- What `input[name]` finds: a value of the input, or what every object inherits under the name, which
-- is a function, or the prototype itself.
pub data Found : Type 0 where
  own : Value → Found
  inherited : Text → Found

abbrev pub Founds : Type 0
Founds = List (Text × Found)

abbrev own_or : Text → Option Value → Option Found
own_or name (some v) = some (own v)
own_or name none = if is_listed name inherited_names then some (inherited name) else none

unfoldable pub property : Text → Values → Option Found
property name input = own_or name (find_row name input)

-- An inherited value is not undefined, and of none of the named types.
unfoldable pub matches_inherited : KeyType → Bool
matches_inherited string_type = false
matches_inherited integer_type = false
matches_inherited number_type = false
matches_inherited boolean_type = false
matches_inherited type = true

-- `cleanResult[name] = value`, which for one name sets the prototype in place of a property.
unfoldable pub is_property : Text → Bool
is_property name = not (name == codes "__proto__")

unfoldable pub set_property : Text → Found → Founds → Founds
unfolding is_property
set_property name value rest = if is_property name then (name, value) ∷ rest else rest

-- One turn of the loop over the keys of the schema, with what the later turns give.
unfoldable pub clean_value : Text → KeyDefinition → Option Found → Result Founds → Result Founds
unfolding set_property
clean_value name d none later = throw_if (is_required d) schema_error >> later
clean_value name d (some (own undefined)) later = throw_if (is_required d) schema_error >> later
clean_value name d (some (own null)) later =
    throw_if (not (get_or false d.nullable)) schema_error
    >> (later >>= λ rest. ok (set_property name (own null) rest))
clean_value name d (some (own v)) later =
    throw_if (not (matches_type v d.type)) schema_error
    >> (later >>= λ rest. ok (set_property name (own v) rest))
clean_value name d (some (inherited n)) later =
    throw_if (not (matches_inherited d.type)) schema_error
    >> (later >>= λ rest. ok (set_property name (inherited n) rest))

unfoldable pub clean_values : Keys → Values → Result Founds
unfolding property
clean_values [] input = ok []
clean_values ((name, d) ∷ keys) input =
    clean_value name d (property name input) (clean_values keys input)

unfoldable pub validate_key_values : TableSchema → Values → Result Founds
validate_key_values s input = check_known (keys_of s) input >> clean_values (keys_of s) input

-- What a test unfolds to check concrete values.
unfoldable pub input_runs : Unit {0}
unfolding validate_key_values check_known clean_values clean_value property matches_inherited
    is_property set_property
input_runs = tt
