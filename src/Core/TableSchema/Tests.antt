-- ===== src/Core/TableSchema/Tests.antt =====
-- A schema of people, its values, and one key more.
use kvdb_nodejs.Prelude.{◌≡◌, refl, Bool, true, false, [], ◌∷◌, none, some, codes, text_keys}
use kvdb_nodejs.Core.Failure.{ok, err}
use kvdb_nodejs.Query.Value.{pos, undefined, null, num}
use kvdb_nodejs.Core.TableSchema.{
  schema_error, string_type, integer_type, no_index, plain_index, index_options, KeyDefinition,
  TableSchema, NormalizedSchema, keys_of, validate_multi_key_schema, schema_runs,
}
use kvdb_nodejs.Core.TableSchema.Input.{own, Values, validate_key_values, input_runs}
use kvdb_nodejs.Core.TableSchema.Values.{
  Cleaned, validate_key_values-Cleaned, allows, all_allowed, names_known,
}
use kvdb_nodejs.Core.TableSchema.Evolve.{evolve_schema_add_key, as_schema, add_or_keep, new_index}
use kvdb_nodejs.Core.TableSchema.Evolve.Valid.{evolve_add_key-valid}

abbrev age_key : KeyDefinition
age_key = record { type = integer_type; nullable = some false; default = none; index = plain_index }

abbrev nick_key : KeyDefinition
nick_key = record { type = string_type; nullable = some true; default = none; index = no_index }

abbrev people : TableSchema
people = record {
  primary_key = some (record { name = codes "id"; type = none });
  keys = some ((codes "age", age_key) ∷ (codes "nick", nick_key) ∷ []);
  columns = none;
  indexes = [];
  version = none;
  timestamps = none;
}

abbrev ann_values : Values
ann_values = (codes "nick", undefined) ∷ (codes "age", num (pos 30)) ∷ []

validate_key_values-Cleaned_example :
    Cleaned true (keys_of people) ann_values (ok ((codes "age", own (num (pos 30))) ∷ []))
unfolding schema_runs input_runs names_known all_allowed allows
validate_key_values-Cleaned_example = validate_key_values-Cleaned people ann_values

missing_age : validate_key_values people ((codes "nick", null) ∷ []) ≡ err schema_error
unfolding schema_runs input_runs
missing_age = refl

-- A key with the name of what every object inherits has a value where none is given: a function, which a
-- text is not.
inherited_refused :
    validate_key_values (record people { keys = some ((codes "valueOf", nick_key) ∷ []) }) []
    ≡ err schema_error
unfolding schema_runs input_runs
inherited_refused = refl

abbrev never_same : KeyDefinition → KeyDefinition → Bool
never_same d e = false

abbrev town_key : KeyDefinition
town_key = record {
  type = string_type;
  nullable = none;
  default = none;
  index = index_options none (some true);
}

abbrev with_town : NormalizedSchema
with_town = record {
  primary_name = codes "id";
  primary_type = string_type;
  keys = (codes "age", age_key) ∷ (codes "nick", nick_key) ∷ (codes "town", town_key) ∷ [];
  indexes =
      record { name = some (codes "town_idx"); keys = codes "town" ∷ []; unique = some true } ∷ [];
  version = 2;
  timestamps = true;
}

evolve_add_key-valid_example : validate_multi_key_schema (as_schema with_town) ≡ ok tt
unfolding schema_runs input_runs evolve_schema_add_key add_or_keep new_index
evolve_add_key-valid_example =
    evolve_add_key-valid never_same people (codes "town") town_key with_town refl refl refl

-- An index name that is no identifier is not looked at, and the schema that comes out is refused.
bad_name_added :
    ((n : NormalizedSchema) × (evolve_schema_add_key never_same people (codes "town") (record {
      type = string_type;
      nullable = none;
      default = none;
      index = index_options (some (codes "my index")) none;
    })
        ≡ ok n)
      × (validate_multi_key_schema (as_schema n) ≡ err schema_error))
unfolding schema_runs input_runs evolve_schema_add_key add_or_keep new_index as_schema
bad_name_added = (_, refl, refl)

-- A schema that maintains no timestamps of its own may not get a key with the name of one.
no_timestamp_key :
    evolve_schema_add_key never_same
      (record people { timestamps = some false })
      (codes "created_at")
      nick_key
    ≡ err schema_error
unfolding schema_runs input_runs evolve_schema_add_key
no_timestamp_key = refl
