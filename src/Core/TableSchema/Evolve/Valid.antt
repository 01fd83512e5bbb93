-- ===== src/Core/TableSchema/Evolve/Valid.antt =====
-- A schema that evolves stays valid.
use kvdb_nodejs.Prelude.{
  ◌≡◌, ◌⊎◌, inl, inr, sym, Bool, true, false, ◌&&◌, not, [], ◌∷◌, ◌++◌, map, Option, none, some,
  Text, ◌==◌, text_keys, get_or, find_row, Bool-cases, and_both,
}
use mathlib.Core.Path.{subst}
use kvdb_nodejs.Core.Failure.{ok, err}
use kvdb_nodejs.Core.TableSchema.{
  schema_error, KeyDefinition, TableSchema, NormalizedSchema, keys_of, name_of, type_of,
  normal_index, normalize_table_schema, is_identifier, is_reserved, is_listed, inherited_names,
  is_in, is_known_type, is_primary_type, is_default_of, is_required, has_index_name,
  validate_multi_key_schema,
}
use kvdb_nodejs.Core.TableSchema.Evolve.{
  new_index, with_key, add_or_keep, evolve_schema_add_key, index_of, as_schema,
}
use kvdb_nodejs.Core.TableSchema.Evolve.Agree.{
  valid_key, valid_keys, valid_parts, valid_schema, schema-Agree, valid_of_ok, ok_of_valid,
}
use kvdb_nodejs.Core.TableSchema.Evolve.Grow.{
  index_of-normal, with_key-valid, passed_check, not-false, free_name, map-append,
}

ok_same : (m n : NormalizedSchema) → ok m ≡ ok n → m ≡ n
ok_same m n h = cc

added_or_kept :
    (same_json : KeyDefinition → KeyDefinition → Bool) (name : Text) (d : KeyDefinition)
    (norm n : NormalizedSchema) (found : Option KeyDefinition)
    → add_or_keep same_json name d norm found ≡ ok n
    → (norm ≡ n) ⊎ (with_key name d norm ≡ n)
unfolding add_or_keep
added_or_kept same_json name d norm n (some existing) h = elim (Bool-cases (same_json existing d)) [
  | inl y ↦ let kept : ok norm ≡ ok n = rw y at h in inl (ok_same norm n kept)
  | inr no_match ↦ let bad : err schema_error ≡ ok n = rw no_match at h in cc
]
added_or_kept same_json name d norm n none h = elim (Bool-cases (is_listed name inherited_names)) [
  | inl y ↦ let bad : err schema_error ≡ ok n = rw y at h in cc
  | inr free ↦
      let added : ok (with_key name d norm) ≡ ok n = rw free at h in inr (ok_same _ n added)
]

-- The test of a schema, up to its last part.
abbrev ends_with : TableSchema → Bool → Bool
ends_with s last =
    is_identifier (name_of s.primary_key)
    && (not (is_reserved (name_of s.primary_key) (get_or true s.timestamps))
        && (is_primary_type (type_of s.primary_key)
            && (not (is_in (name_of s.primary_key) (keys_of s))
                && (valid_keys (get_or true s.timestamps) (keys_of s) && last))))

normalized-valid :
    (s : TableSchema)
    → valid_schema s ≡ true
    → valid_schema (as_schema (normalize_table_schema s)) ≡ true
unfolding valid_schema as_schema normalize_table_schema
normalized-valid s h =
    subst (λ b. ends_with s b ≡ true)
      (sym (index_of-normal (name_of s.primary_key) (keys_of s) s.indexes)) h

with_key_valid :
    (s : TableSchema) (name : Text) (d : KeyDefinition)
    → valid_schema s ≡ true
    → valid_key (get_or true s.timestamps) name d ≡ true
    → (name == name_of s.primary_key) ≡ false
    → valid_schema (as_schema (with_key name d (normalize_table_schema s))) ≡ true
unfolding valid_schema as_schema normalize_table_schema
with_key_valid s name d h k other =
    subst
      (λ l.
        valid_parts (name_of s.primary_key) (type_of s.primary_key) (get_or true s.timestamps)
          (keys_of s ++ (name, d) ∷ []) l
        ≡ true)
      (sym (map-append (map normal_index s.indexes) (new_index name d.index)))
      (with_key-valid (name_of s.primary_key) name (type_of s.primary_key)
        (get_or true s.timestamps) d (keys_of s) (map index_of (map normal_index s.indexes))
        (normalized-valid s h) k other)

-- A valid schema stays valid under `evolveSchemaAddKey`, where it succeeds, if the index of the new key
-- has an identifier for its name, or none.
pub evolve_add_key-valid :
    (same_json : KeyDefinition → KeyDefinition → Bool) (s : TableSchema) (name : Text)
    (d : KeyDefinition) (n : NormalizedSchema)
    → validate_multi_key_schema s ≡ ok tt
    → has_index_name d.index ≡ true
    → evolve_schema_add_key same_json s name d ≡ ok n
    → validate_multi_key_schema (as_schema n) ≡ ok tt
unfolding evolve_schema_add_key normalize_table_schema
evolve_add_key-valid same_json s name d n valid index h =
    let before = valid_of_ok (valid_schema s) _ (schema-Agree s) valid in
    let (named, h1) = passed_check (not (is_identifier name)) _ n h in
    let (free, h2) = passed_check (is_reserved name true) _ n h1 in
    let (other, h3) = passed_check (name == name_of s.primary_key) _ n h2 in
    let (_, h4) = passed_check (is_required d) _ n h3 in
    let (known, h5) = passed_check (not (is_known_type d.type)) _ n h4 in
    let (default', h6) = passed_check (not (is_default_of d d.default)) _ n h5 in
    let key = and_both (not-false _ named) (
      and_both (free_name name (get_or true s.timestamps) free)
        (and_both (not-false _ known) (and_both (not-false _ default') index))) in
    ok_of_valid (valid_schema (as_schema n)) _ (schema-Agree (as_schema n))
      (elim (added_or_kept same_json name d (normalize_table_schema s) n (find_row name (keys_of s))
        h6) [
          | inl same ↦
              subst (λ m. valid_schema (as_schema m) ≡ true) same (normalized-valid s before)
          | inr added ↦
              subst (λ m. valid_schema (as_schema m) ≡ true) added
                (with_key_valid s name d before key other)
        ])
