-- ===== src/Core/TableSchema/Values.antt =====
-- Which values `validateKeyValues` accepts, and what it makes of them.
use kvdb_nodejs.Prelude.{
  ==_iff, ◌==◌, Bool-cases, ◌≡◌, inl, inr, refl, sym, ap, ◌∙◌, Bool, true, false, ◌&&◌, not, [],
  ◌∷◌, Option, none, some, Text, text_keys, get_or, is_some, find_row, if◌then◌else◌, and_false,
  false_and, and_both,
}
use kvdb_nodejs.Query.Value.Equal.{key-cases}
use kvdb_nodejs.Core.Failure.{Result, ok, err, ◌>>=◌, ◌>>◌, throw_if}
use kvdb_nodejs.Query.Value.{undefined, null}
use kvdb_nodejs.Core.TableSchema.{
  schema_error, is_required, KeyDefinition, Keys, TableSchema, keys_of, matches_type,
}
use kvdb_nodejs.Core.TableSchema.Input.{
  Found, own, inherited, Founds, property, matches_inherited, is_property, set_property, Values,
  check_known, clean_value, clean_values, validate_key_values,
}

-- What a key allows: no value unless one is required, null where it is nullable, a value of its type.
unfoldable pub allows : KeyDefinition → Option Found → Bool
unfolding matches_inherited
allows d none = not (is_required d)
allows d (some (own undefined)) = not (is_required d)
allows d (some (own null)) = get_or false d.nullable
allows d (some (own v)) = matches_type v d.type
allows d (some (inherited n)) = matches_inherited d.type

unfoldable pub all_allowed : Keys → Values → Bool
all_allowed [] input = true
all_allowed ((name, d) ∷ keys) input = allows d (property name input) && all_allowed keys input

unfoldable pub names_known : Keys → Values → Bool
names_known keys [] = true
names_known keys ((name, v) ∷ input) = is_some (find_row name keys) && names_known keys input

-- `undefined` counts as no value.
abbrev pub defined_value : Option Found → Option Found
defined_value none = none
defined_value (some (own undefined)) = none
defined_value (some f) = some f

abbrev pub Checked : Bool → Result (Unit {0}) → Type 0
Checked valid (ok u) = valid ≡ true
Checked valid (err e) = (valid ≡ false) × (e ≡ schema_error)

-- The result has what the input has under the keys of the schema, but nothing under `__proto__`.
abbrev pub Cleaned : Bool → Keys → Values → Result Founds → Type 0
Cleaned valid keys input (ok out) =
    (valid ≡ true)
    × ((name : Text)
        → find_row name out ≡ (
            if is_some (find_row name keys) && is_property name
            then defined_value (property name input)
            else none))
Cleaned valid keys input (err e) = (valid ≡ false) × (e ≡ schema_error)

Checked-first :
    (a b : Bool) (r : Result (Unit {0}))
    → Checked b r
    → Checked (a && b) (throw_if (not a) schema_error >> r)
Checked-first true b r h = h
Checked-first false b r h = (refl, refl)

known-Checked :
    (keys : Keys) (input : Values) → Checked (names_known keys input) (check_known keys input)
unfolding names_known check_known
known-Checked keys [] = refl
known-Checked keys ((name, v) ∷ input) =
    Checked-first (is_some (find_row name keys)) (names_known keys input) (check_known keys input)
      (known-Checked keys input)

none_either : (b : Bool) {o : Option Found} → o ≡ none → (if b then o else none) ≡ none
none_either true h = h
none_either false h = refl

hidden : (a b : Bool) (o : Option Found) → b ≡ false → (if a && b then o else none) ≡ none
hidden true b o h = rw h refl
hidden false b o h = refl

find_row-set_property :
    (name j : Text) (f : Found) (out : Founds)
    → find_row j (set_property name f out)
      ≡ (if (name == j) && is_property j then some f else find_row j out)
unfolding find_row set_property
find_row-set_property name j f out = elim (key-cases name j) [
  | inl s ↦ elim (Bool-cases (is_property j)) [
    | inl y ↦ rw (ap is_property s ∙ y, (==_iff name j).1 s, y) refl
    | inr x ↦ rw (ap is_property s ∙ x, (==_iff name j).1 s, x) refl
  ]
  | inr n ↦ elim (Bool-cases (is_property name)) [ inl y ↦ rw (y, n) refl | inr x ↦ rw (x, n) refl ]
]

-- A turn that adds nothing, and one that adds a value.
Cleaned-left_out :
    (name : Text) (d : KeyDefinition) (keys : Keys) (input : Values) (a b : Bool)
    (r : Result Founds)
    → defined_value (property name input) ≡ none
    → Cleaned b keys input r
    → Cleaned (not a && b) ((name, d) ∷ keys) input (throw_if a schema_error >> r)
unfolding find_row
Cleaned-left_out name d keys input true b r h k = (refl, refl)
Cleaned-left_out name d keys input false b (err e) h k = k
Cleaned-left_out name d keys input false b (ok out) h k = (
  k.0,
  λ j. elim (key-cases name j) [
    | inl y ↦
        let missing = sym (ap (λ t. defined_value (property t input)) y) ∙ h in
        rw ((==_iff name j).1 y) (
          k.1 j
          ∙ none_either (is_some (find_row j keys) && is_property j) missing
          ∙ sym (none_either (is_property j) missing))
    | inr n ↦ rw n (k.1 j)
  ],
)

Cleaned-added :
    (name : Text) (f : Found) (d : KeyDefinition) (keys : Keys) (input : Values) (a b : Bool)
    (r : Result Founds)
    → defined_value (property name input) ≡ some f
    → Cleaned b keys input r
    → Cleaned
        (a && b)
        ((name, d) ∷ keys)
        input
        (throw_if (not a) schema_error >> (r >>= λ rest. ok (set_property name f rest)))
unfolding find_row
Cleaned-added name f d keys input false b r h k = (refl, refl)
Cleaned-added name f d keys input true b (err e) h k = k
Cleaned-added name f d keys input true b (ok out) h k = (
  k.0,
  λ j. find_row-set_property name j f out ∙ elim (key-cases name j) [
    | inl s ↦ elim (Bool-cases (is_property j)) [
      | inl y ↦ rw ((==_iff name j).1 s, y) (sym h ∙ ap (λ t. defined_value (property t input)) s)
      | inr x ↦
          rw ((==_iff name j).1 s, x)
            (k.1 j ∙ hidden (is_some (find_row j keys)) (is_property j) _ x)
    ]
    | inr n ↦ rw n (k.1 j)
  ],
)

clean_value-Cleaned :
    (name : Text) (d : KeyDefinition) (keys : Keys) (input : Values) (found : Option Found)
    (b : Bool) (r : Result Founds)
    → property name input ≡ found
    → Cleaned b keys input r
    → Cleaned (allows d found && b) ((name, d) ∷ keys) input (clean_value name d found r)
unfolding clean_value allows
clean_value-Cleaned name d keys input none b r h k =
    Cleaned-left_out name d keys input (is_required d) b r (ap defined_value h) k
clean_value-Cleaned name d keys input (some (own undefined)) b r h k =
    Cleaned-left_out name d keys input (is_required d) b r (ap defined_value h) k
clean_value-Cleaned name d keys input (some (own null)) b r h k =
    Cleaned-added name (own null) d keys input (get_or false d.nullable) b r (ap defined_value h) k
clean_value-Cleaned name d keys input (some (own v)) b r h k =
    Cleaned-added name (own v) d keys input (matches_type v d.type) b r (ap defined_value h) k
clean_value-Cleaned name d keys input (some (inherited n)) b r h k =
    Cleaned-added name (inherited n) d keys input (matches_inherited d.type) b r
      (ap defined_value h) k

clean_values-Cleaned :
    (keys : Keys) (input : Values)
    → Cleaned (all_allowed keys input) keys input (clean_values keys input)
unfolding clean_values all_allowed find_row
clean_values-Cleaned [] input = (refl, λ name. refl)
clean_values-Cleaned ((name, d) ∷ keys) input =
    clean_value-Cleaned name d keys input (property name input) (all_allowed keys input)
      (clean_values keys input) refl (clean_values-Cleaned keys input)

Cleaned-Checked :
    (a b : Bool) (keys : Keys) (input : Values) (u : Result (Unit {0})) (r : Result Founds)
    → Checked a u
    → Cleaned b keys input r
    → Cleaned (a && b) keys input (u >> r)
Cleaned-Checked a b keys input (err e) r h k = (false_and b h.0, h.1)
Cleaned-Checked a b keys input (ok u) (err e) h k = (and_false h k.0, k.1)
Cleaned-Checked a b keys input (ok u) (ok out) h k = (and_both h k.0, k.1)

-- `validateKeyValues` accepts the input of which each name is a key of the schema and where each key of
-- the schema allows what the input has under it, what every object inherits included: nothing unless a
-- value is required, null where the key is nullable, a value of its type. The result has under each key
-- what the input has, except under `__proto__`, and nothing else; all other input is refused with a
-- schema error.
pub validate_key_values-Cleaned :
    (s : TableSchema) (input : Values)
    → Cleaned
        (names_known (keys_of s) input && all_allowed (keys_of s) input)
        (keys_of s)
        input
        (validate_key_values s input)
unfolding validate_key_values
validate_key_values-Cleaned s input =
    Cleaned-Checked (names_known (keys_of s) input) (all_allowed (keys_of s) input) (keys_of s)
      input (check_known (keys_of s) input) (clean_values (keys_of s) input)
      (known-Checked (keys_of s) input) (clean_values-Cleaned (keys_of s) input)
