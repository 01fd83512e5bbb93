-- ===== src/Core/TableSchema.antt =====
-- src/core/table-schema.ts: schemas of tables with columns, their validation, the validation of the
-- values of columns, and the evolution of a schema.
pub mod Input
pub mod Values
pub mod Evolve
mod Tests
use kvdb_nodejs.Prelude.{
  ℕ, zero, suc, ◌+◌, ◌-◌, ◌^◌, ◌≡◌, refl, Bool, true, false, ◌&&◌, ◌||◌, not, List, [], ◌∷◌, ◌++◌,
  map, Option, none, some, Text, codes, leb, eqb, ◌==◌, text_keys, get_or, or_else, is_some,
  find_row, text_beq, if◌then◌else◌,
}
use kvdb_nodejs.Core.Failure.{
  Failure, Result, ok, err, thrown, kvdb_schema_error, ◌>>=◌, ◌>>◌, throw_if,
}
use kvdb_nodejs.Query.Value.{ℤ, pos, negsuc, Value, undefined, null, bool, num, str}

abbrev pub schema_error : Failure
schema_error = thrown kvdb_schema_error

-- `other_type` is a type that is none of the five.
pub data KeyType : Type 0 where
  string_type integer_type number_type boolean_type json_type other_type : KeyType

-- `index`: absent or false, true, or an object with a name and a flag.
pub data KeyIndex : Type 0 where
  no_index plain_index : KeyIndex
  index_options : Option Text → Option Bool → KeyIndex

pub record KeyDefinition : Type 0 where
  pub type : KeyType
  pub nullable : Option Bool
  pub default : Option Value
  pub index : KeyIndex

abbrev pub Keys : Type 0
Keys = List (Text × KeyDefinition)

pub record PrimaryKey : Type 0 where
  pub name : Text
  pub type : Option KeyType

pub record IndexDefinition : Type 0 where
  pub name : Option Text
  pub keys : Option (List Text)
  pub columns : Option (List Text)
  pub unique : Option Bool

pub record TableSchema : Type 0 where
  pub primary_key : Option PrimaryKey
  pub keys : Option Keys
  pub columns : Option Keys
  pub indexes : List IndexDefinition
  pub version : Option ℕ
  pub timestamps : Option Bool

pub record NormalIndex : Type 0 where
  pub name : Option Text
  pub keys : List Text
  pub unique : Option Bool

-- `columns` holds the same as `keys`, in the schema and in each index.
pub record NormalizedSchema : Type 0 where
  pub primary_name : Text
  pub primary_type : KeyType
  pub keys : Keys
  pub indexes : List NormalIndex
  pub version : ℕ
  pub timestamps : Bool

abbrev pub name_of : Option PrimaryKey → Text
name_of none = codes "key"
name_of (some p) = p.name

abbrev pub type_of : Option PrimaryKey → KeyType
type_of none = string_type
type_of (some p) = get_or string_type p.type

abbrev pub keys_of : TableSchema → Keys
keys_of s = get_or [] (or_else s.keys s.columns)

abbrev pub columns_of : IndexDefinition → List Text
columns_of index = get_or [] (or_else index.keys index.columns)

abbrev pub normal_index : IndexDefinition → NormalIndex
normal_index index = record { name = index.name; keys = columns_of index; unique = index.unique }

unfoldable pub normalize_table_schema : TableSchema → NormalizedSchema
normalize_table_schema s = record {
  primary_name = name_of s.primary_key;
  primary_type = type_of s.primary_key;
  keys = keys_of s;
  indexes = map normal_index s.indexes;
  version = get_or 1 s.version;
  timestamps = get_or true s.timestamps;
}

-- IDENTIFIER
unfoldable pub is_letter : ℕ → Bool
is_letter c = leb 65 c && leb c 90 || leb 97 c && leb c 122 || eqb c b'_'

unfoldable pub is_identifier_rest : Text → Bool
is_identifier_rest [] = true
is_identifier_rest (c ∷ t) = (is_letter c || leb 48 c && leb c 57) && is_identifier_rest t

unfoldable pub is_identifier : Text → Bool
is_identifier [] = false
is_identifier (c ∷ t) = is_letter c && is_identifier_rest t

-- `toLowerCase`, on the letters that an identifier has.
unfoldable pub to_lower : Text → Text
to_lower [] = []
to_lower (c ∷ t) = (if leb 65 c && leb c 90 then c + 32 else c) ∷ to_lower t

unfoldable pub is_listed : Text → List Text → Bool
is_listed t [] = false
is_listed t (u ∷ us) = t == u || is_listed t us

abbrev pub core_reserved : List Text
core_reserved =
    codes "value"
    ∷ codes "expires_at"
    ∷ codes "_id"
    ∷ codes "__proto__"
    ∷ codes "constructor"
    ∷ codes "prototype"
    ∷ []

abbrev pub timestamp_reserved : List Text
timestamp_reserved = codes "created_at" ∷ codes "updated_at" ∷ []

unfoldable pub is_reserved : Text → Bool → Bool
is_reserved name timestamps =
    is_listed (to_lower name) core_reserved
    || timestamps && is_listed (to_lower name) timestamp_reserved

-- What every object inherits: `name in keys` finds these as well.
abbrev pub inherited_names : List Text
inherited_names =
    codes "constructor"
    ∷ codes "__defineGetter__"
    ∷ codes "__defineSetter__"
    ∷ codes "hasOwnProperty"
    ∷ codes "__lookupGetter__"
    ∷ codes "__lookupSetter__"
    ∷ codes "isPrototypeOf"
    ∷ codes "propertyIsEnumerable"
    ∷ codes "toString"
    ∷ codes "valueOf"
    ∷ codes "__proto__"
    ∷ codes "toLocaleString"
    ∷ []

unfoldable pub is_in : Text → Keys → Bool
is_in name keys = is_some (find_row name keys) || is_listed name inherited_names

abbrev pub is_known_type : KeyType → Bool
is_known_type other_type = false
is_known_type type = true

abbrev pub is_primary_type : KeyType → Bool
is_primary_type string_type = true
is_primary_type integer_type = true
is_primary_type type = false

-- `Number.isSafeInteger`
unfoldable pub is_safe_integer : ℤ → Bool
is_safe_integer (pos n) = leb n (2 ^ 53 - 1)
is_safe_integer (negsuc n) = leb (suc n) (2 ^ 53 - 1)

unfoldable pub matches_type : Value → KeyType → Bool
matches_type (str t) string_type = true
matches_type v string_type = false
matches_type (num n) integer_type = is_safe_integer n
matches_type v integer_type = false
matches_type (num n) number_type = true
matches_type v number_type = false
matches_type (bool b) boolean_type = true
matches_type v boolean_type = false
matches_type undefined type = false
matches_type v type = true

abbrev pub is_null : Value → Bool
is_null null = true
is_null v = false

-- A default has the type, or it is the null of a nullable key.
abbrev pub is_default_of : KeyDefinition → Option Value → Bool
is_default_of d none = true
is_default_of d (some undefined) = true
is_default_of d (some v) = matches_type v d.type || get_or false d.nullable && is_null v

abbrev pub is_index_name : Option Text → Bool
is_index_name none = true
is_index_name (some name) = is_identifier name

abbrev pub has_index_name : KeyIndex → Bool
has_index_name (index_options name unique) = is_index_name name
has_index_name index = true

-- The loop over the keys.
unfoldable pub check_keys : Bool → Keys → Result (Unit {0})
check_keys timestamps [] = ok tt
check_keys timestamps ((name, d) ∷ keys) =
    throw_if (not (is_identifier name)) schema_error
    >> (throw_if (is_reserved name timestamps) schema_error
        >> (throw_if (not (is_known_type d.type)) schema_error
            >> (throw_if (not (is_default_of d d.default)) schema_error
                >> (throw_if (not (has_index_name d.index)) schema_error
                    >> check_keys timestamps keys))))

abbrev pub is_empty : List Text → Bool
is_empty [] = true
is_empty (t ∷ ts) = false

unfoldable pub all_known : Text → Keys → List Text → Bool
all_known primary keys [] = true
all_known primary keys (c ∷ cols) = (c == primary || is_in c keys) && all_known primary keys cols

-- The loop over the indexes.
unfoldable pub check_indexes : Text → Keys → List IndexDefinition → Result (Unit {0})
check_indexes primary keys [] = ok tt
check_indexes primary keys (index ∷ indexes) =
    throw_if (is_empty (columns_of index)) schema_error
    >> (throw_if (not (all_known primary keys (columns_of index))) schema_error
        >> (throw_if (not (is_index_name index.name)) schema_error
            >> check_indexes primary keys indexes))

unfoldable pub validate_multi_key_schema : TableSchema → Result (Unit {0})
validate_multi_key_schema s =
    let primary = name_of s.primary_key in
    let timestamps = get_or true s.timestamps in
    throw_if (not (is_identifier primary)) schema_error
    >> (throw_if (is_reserved primary timestamps) schema_error
        >> (throw_if (not (is_primary_type (type_of s.primary_key))) schema_error
            >> (throw_if (is_in primary (keys_of s)) schema_error
                >> (check_keys timestamps (keys_of s)
                    >> check_indexes primary (keys_of s) s.indexes))))

-- A default of `undefined` is none.
abbrev pub is_given : Option Value → Bool
is_given none = false
is_given (some undefined) = false
is_given (some v) = true

-- A key may be left out unless it is required and has no default.
abbrev pub is_required : KeyDefinition → Bool
is_required d = not (get_or true d.nullable) && not (is_given d.default)

-- What a test unfolds to check a concrete schema.
unfoldable pub schema_runs : Unit {0}
unfolding validate_multi_key_schema check_keys check_indexes is_identifier is_identifier_rest
    is_letter is_reserved is_listed to_lower is_in all_known matches_type is_safe_integer
    normalize_table_schema find_row text_beq
schema_runs = tt
