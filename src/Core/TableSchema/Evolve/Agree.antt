-- ===== src/Core/TableSchema/Evolve/Agree.antt =====
-- The checks of a schema as one test.
use kvdb_nodejs.Prelude.{
  ◌≡◌, refl, sym, ◌∙◌, Bool, true, false, ◌&&◌, not, List, [], ◌∷◌, Option, Text, text_keys, get_or,
  if◌then◌else◌,
}
use mathlib.Core.Path.{subst}
use kvdb_nodejs.Core.Failure.{Result, ok, err, ◌>>◌, throw_if}
use kvdb_nodejs.Core.TableSchema.{
  schema_error, KeyType, KeyDefinition, Keys, IndexDefinition, TableSchema, columns_of, keys_of,
  name_of, type_of, is_identifier, is_reserved, is_in, is_known_type, is_primary_type,
  is_default_of, has_index_name, is_index_name, is_empty, all_known, check_keys, check_indexes,
  validate_multi_key_schema,
}

abbrev pub valid_key : Bool → Text → KeyDefinition → Bool
valid_key timestamps name d =
    is_identifier name
    && (not (is_reserved name timestamps)
        && (is_known_type d.type && (is_default_of d d.default && has_index_name d.index)))

unfoldable pub valid_keys : Bool → Keys → Bool
valid_keys timestamps [] = true
valid_keys timestamps ((name, d) ∷ keys) = valid_key timestamps name d && valid_keys timestamps keys

abbrev pub valid_index : Text → Keys → Option Text → List Text → Bool
valid_index primary keys name cols =
    not (is_empty cols) && (all_known primary keys cols && is_index_name name)

unfoldable pub valid_indexes : Text → Keys → List IndexDefinition → Bool
valid_indexes primary keys [] = true
valid_indexes primary keys (index ∷ indexes) =
    valid_index primary keys index.name (columns_of index) && valid_indexes primary keys indexes

abbrev pub valid_parts : Text → KeyType → Bool → Keys → List IndexDefinition → Bool
valid_parts primary type timestamps keys indexes =
    is_identifier primary
    && (not (is_reserved primary timestamps)
        && (is_primary_type type
            && (not (is_in primary keys)
                && (valid_keys timestamps keys && valid_indexes primary keys indexes))))

unfoldable pub valid_schema : TableSchema → Bool
valid_schema s =
    valid_parts (name_of s.primary_key) (type_of s.primary_key) (get_or true s.timestamps)
      (keys_of s) s.indexes

-- A chain of checks, and the tests that it makes.
abbrev pub Agrees : Bool → Result (Unit {0}) → Type 0
Agrees valid r = r ≡ (if valid then ok tt else err schema_error)

pub Agrees-check :
    (a b : Bool) (r : Result (Unit {0}))
    → Agrees b r
    → Agrees (a && b) (throw_if (not a) schema_error >> r)
Agrees-check true b r h = h
Agrees-check false b r h = refl

pub Agrees-refuse :
    (a b : Bool) (r : Result (Unit {0}))
    → Agrees b r
    → Agrees (not a && b) (throw_if a schema_error >> r)
Agrees-refuse false b r h = h
Agrees-refuse true b r h = refl

pub Agrees-then :
    (a b : Bool) (q r : Result (Unit {0})) → Agrees a q → Agrees b r → Agrees (a && b) (q >> r)
Agrees-then true b q r h k = rw h k
Agrees-then false b q r h k = rw h refl

pub keys-Agree :
    (timestamps : Bool) (keys : Keys)
    → Agrees (valid_keys timestamps keys) (check_keys timestamps keys)
unfolding valid_keys check_keys
keys-Agree timestamps [] = refl
keys-Agree timestamps ((name, d) ∷ keys) =
    subst (λ b. Agrees b (check_keys timestamps ((name, d) ∷ keys)))
      (five (is_identifier name) (not (is_reserved name timestamps)) (is_known_type d.type)
        (is_default_of d d.default) (has_index_name d.index) (valid_keys timestamps keys))
      (Agrees-check (is_identifier name) _ _ (
        Agrees-refuse (is_reserved name timestamps) _ _ (
          Agrees-check (is_known_type d.type) _ _ (
            Agrees-check (is_default_of d d.default) _ _
              (Agrees-check (has_index_name d.index) _ _ (keys-Agree timestamps keys))))))
  where
    five :
        (a b c d e f : Bool)
        → (a && (b && (c && (d && (e && f))))) ≡ ((a && (b && (c && (d && e)))) && f)
    five true true true true e f = refl
    five true true true false e f = refl
    five true true false d e f = refl
    five true false c d e f = refl
    five false b c d e f = refl

pub indexes-Agree :
    (primary : Text) (keys : Keys) (indexes : List IndexDefinition)
    → Agrees (valid_indexes primary keys indexes) (check_indexes primary keys indexes)
unfolding valid_indexes check_indexes
indexes-Agree primary keys [] = refl
indexes-Agree primary keys (index ∷ indexes) =
    subst (λ b. Agrees b (check_indexes primary keys (index ∷ indexes)))
      (three (not (is_empty (columns_of index))) (all_known primary keys (columns_of index))
        (is_index_name index.name) (valid_indexes primary keys indexes))
      (Agrees-refuse (is_empty (columns_of index)) _ _ (
        Agrees-check (all_known primary keys (columns_of index)) _ _
          (Agrees-check (is_index_name index.name) _ _ (indexes-Agree primary keys indexes))))
  where
    three : (a b c d : Bool) → (a && (b && (c && d))) ≡ ((a && (b && c)) && d)
    three true true c d = refl
    three true false c d = refl
    three false b c d = refl

pub schema-Agree : (s : TableSchema) → Agrees (valid_schema s) (validate_multi_key_schema s)
unfolding valid_schema validate_multi_key_schema
schema-Agree s =
    let primary = name_of s.primary_key in
    let timestamps = get_or true s.timestamps in
    Agrees-check (is_identifier primary) _ _ (
      Agrees-refuse (is_reserved primary timestamps) _ _ (
        Agrees-check (is_primary_type (type_of s.primary_key)) _ _ (
          Agrees-refuse (is_in primary (keys_of s)) _ _ (
            Agrees-then (valid_keys timestamps (keys_of s))
              (valid_indexes primary (keys_of s) s.indexes) _ _ (keys-Agree timestamps (keys_of s))
              (indexes-Agree primary (keys_of s) s.indexes)))))

pub valid_of_ok : (b : Bool) (r : Result (Unit {0})) → Agrees b r → r ≡ ok tt → b ≡ true
valid_of_ok true r h k = refl
valid_of_ok false r h k = let bad : err schema_error ≡ ok tt = sym h ∙ k in cc

pub ok_of_valid : (b : Bool) (r : Result (Unit {0})) → Agrees b r → b ≡ true → r ≡ ok tt
ok_of_valid b r h k = h ∙ rw k refl
