-- ===== src/Core/TableSchema/Evolve/Grow.antt =====
-- The test of a schema with one key more.
use kvdb_nodejs.Prelude.{
  ◌≡◌, inl, inr, refl, ap, ◌∙◌, Bool, true, false, ◌&&◌, ◌||◌, not, List, [], ◌∷◌, ◌++◌, map, none,
  some, Text, codes, ◌==◌, ==_self, text_keys, is_some, find_row, Bool-cases, and_split, and_both,
}
use kvdb_nodejs.Core.Failure.{Result, ok, ◌>>◌, throw_if}
use kvdb_nodejs.Core.TableSchema.{
  schema_error, KeyType, KeyIndex, no_index, plain_index, index_options, KeyDefinition, Keys,
  IndexDefinition, NormalIndex, columns_of, normal_index, is_identifier, is_identifier_rest,
  is_letter, is_reserved, is_listed, to_lower, core_reserved, timestamp_reserved, inherited_names,
  is_in, is_known_type, is_primary_type, is_default_of, has_index_name, is_empty, all_known,
}
use kvdb_nodejs.Core.TableSchema.Evolve.{new_index, index_of}
use kvdb_nodejs.Core.TableSchema.Evolve.Agree.{
  valid_key, valid_keys, valid_index, valid_indexes, valid_parts,
}

-- The schema that normalizing gives has the same parts.
pub index_of-normal :
    (primary : Text) (keys : Keys) (indexes : List IndexDefinition)
    → valid_indexes primary keys (map index_of (map normal_index indexes))
      ≡ valid_indexes primary keys indexes
unfolding valid_indexes
index_of-normal primary keys [] = refl
index_of-normal primary keys (index ∷ indexes) =
    ap (λ b. valid_index primary keys index.name (columns_of index) && b)
      (index_of-normal primary keys indexes)

pub valid_keys-append :
    (timestamps : Bool) (keys : Keys) (name : Text) (d : KeyDefinition)
    → valid_keys timestamps keys ≡ true
    → valid_key timestamps name d ≡ true
    → valid_keys timestamps (keys ++ (name, d) ∷ []) ≡ true
unfolding valid_keys
valid_keys-append timestamps [] name d h k = and_both k refl
valid_keys-append timestamps ((j, e) ∷ keys) name d h k =
    let (a, b) = and_split (valid_key timestamps j e) _ h in
    and_both a (valid_keys-append timestamps keys name d b k)

pub find_row-append :
    (j name : Text) (d : KeyDefinition) (keys : Keys)
    → is_some (find_row j (keys ++ (name, d) ∷ [])) ≡ (is_some (find_row j keys) || name == j)
unfolding find_row
find_row-append j name d [] = elim (Bool-cases (name == j)) [
  | inl y ↦ rw y refl
  | inr n ↦ rw n refl
]
find_row-append j name d ((i, e) ∷ keys) = elim (Bool-cases (i == j)) [
  | inl y ↦ rw y refl
  | inr n ↦ rw n (find_row-append j name d keys)
]

pub or_first : {a : Bool} (b : Bool) → a ≡ true → (a || b) ≡ true
or_first b h = rw h refl

pub or_second : (a : Bool) {b : Bool} → b ≡ true → (a || b) ≡ true
or_second true h = refl
or_second false h = h

pub is_in-append :
    (j name : Text) (d : KeyDefinition) (keys : Keys)
    → is_in j keys ≡ true
    → is_in j (keys ++ (name, d) ∷ []) ≡ true
unfolding is_in
is_in-append j name d keys h =
    rw (find_row-append j name d keys)
      (wider (is_some (find_row j keys)) (name == j) (is_listed j inherited_names) h)
  where
    wider : (a b c : Bool) → (a || c) ≡ true → ((a || b) || c) ≡ true
    wider true b c h = refl
    wider false true c h = refl
    wider false false c h = h

pub all_known-append :
    (primary name : Text) (d : KeyDefinition) (keys : Keys) (cols : List Text)
    → all_known primary keys cols ≡ true
    → all_known primary (keys ++ (name, d) ∷ []) cols ≡ true
unfolding all_known
all_known-append primary name d keys [] h = refl
all_known-append primary name d keys (c ∷ cols) h =
    let (a, b) = and_split (c == primary || is_in c keys) _ h in
    and_both (either (c == primary) (is_in c keys) _ a (is_in-append c name d keys))
      (all_known-append primary name d keys cols b)
  where
    either : (a b c : Bool) → (a || b) ≡ true → (b ≡ true → c ≡ true) → (a || c) ≡ true
    either true b c h f = refl
    either false b c h f = f h

pub valid_indexes-append :
    (primary name : Text) (d : KeyDefinition) (keys : Keys) (indexes more : List IndexDefinition)
    → valid_indexes primary keys indexes ≡ true
    → valid_indexes primary (keys ++ (name, d) ∷ []) more ≡ true
    → valid_indexes primary (keys ++ (name, d) ∷ []) (indexes ++ more) ≡ true
unfolding valid_indexes
valid_indexes-append primary name d keys [] more h k = k
valid_indexes-append primary name d keys (index ∷ indexes) more h k =
    let (a, b) = and_split (valid_index primary keys index.name (columns_of index)) _ h in
    let (empty, rest) = and_split (not (is_empty (columns_of index))) _ a in
    let (known, named) = and_split (all_known primary keys (columns_of index)) _ rest in
    and_both
      (and_both empty
        (and_both (all_known-append primary name d keys (columns_of index) known) named))
      (valid_indexes-append primary name d keys indexes more b k)

-- The name that an index gets from its key is an identifier.
pub rest_idx :
    (t : Text) → is_identifier_rest t ≡ true → is_identifier_rest (t ++ codes "_idx") ≡ true
unfolding is_identifier_rest is_letter
rest_idx [] h = refl
rest_idx (c ∷ t) h = let (a, b) = and_split _ (is_identifier_rest t) h in and_both a (rest_idx t b)

pub identifier_idx : (t : Text) → is_identifier t ≡ true → is_identifier (t ++ codes "_idx") ≡ true
unfolding is_identifier
identifier_idx [] h = cc
identifier_idx (c ∷ t) h =
    let (a, b) = and_split _ (is_identifier_rest t) h in and_both a (rest_idx t b)

pub is_in-new :
    (name : Text) (d : KeyDefinition) (keys : Keys) → is_in name (keys ++ (name, d) ∷ []) ≡ true
unfolding is_in
is_in-new name d keys =
    or_first (is_listed name inherited_names)
      (find_row-append name name d keys ∙ or_second (is_some (find_row name keys)) (==_self name))

pub one_index :
    (a : Bool) {b c : Bool} → b ≡ true → c ≡ true → ((((a || b) && true) && c) && true) ≡ true
one_index true h k = rw k refl
one_index false h k = rw (h, k) refl

pub new_index-valid :
    (primary name : Text) (d : KeyDefinition) (keys : Keys) (index : KeyIndex)
    → is_identifier name ≡ true
    → has_index_name index ≡ true
    → valid_indexes primary (keys ++ (name, d) ∷ []) (map index_of (new_index name index)) ≡ true
unfolding valid_indexes new_index all_known
new_index-valid primary name d keys no_index h k = refl
new_index-valid primary name d keys plain_index h k =
    one_index (name == primary) (is_in-new name d keys) (identifier_idx name h)
new_index-valid primary name d keys (index_options none unique) h k =
    one_index (name == primary) (is_in-new name d keys) (identifier_idx name h)
new_index-valid primary name d keys (index_options (some index_name) unique) h k =
    one_index (name == primary) (is_in-new name d keys) k

pub passed_check :
    {A : Type 0} (a : Bool) (r : Result A) (x : A)
    → (throw_if a schema_error >> r) ≡ ok x
    → (a ≡ false) × (r ≡ ok x)
passed_check true r x h = cc
passed_check false r x h = (refl, h)

pub not-false : (a : Bool) → not a ≡ false → a ≡ true
not-false true h = refl
not-false false h = cc

pub free_name :
    (name : Text) (timestamps : Bool)
    → is_reserved name true ≡ false
    → not (is_reserved name timestamps) ≡ true
unfolding is_reserved
free_name name timestamps h =
    free (is_listed (to_lower name) core_reserved) (is_listed (to_lower name) timestamp_reserved)
      timestamps h
  where
    free : (a b c : Bool) → (a || b) ≡ false → not (a || c && b) ≡ true
    free true b c h = cc
    free false true c h = cc
    free false false true h = refl
    free false false false h = refl

pub not_in-append :
    (primary name : Text) (d : KeyDefinition) (keys : Keys)
    → not (is_in primary keys) ≡ true
    → (name == primary) ≡ false
    → not (is_in primary (keys ++ (name, d) ∷ [])) ≡ true
unfolding is_in
not_in-append primary name d keys h k = rw (find_row-append primary name d keys) (
    outside (is_some (find_row primary keys)) (name == primary) (is_listed primary inherited_names)
      h k)
  where
    outside : (a b c : Bool) → not (a || c) ≡ true → b ≡ false → not ((a || b) || c) ≡ true
    outside true b c h k = cc
    outside false true c h k = cc
    outside false false c h k = h

pub map-append :
    (xs ys : List NormalIndex) → map index_of (xs ++ ys) ≡ map index_of xs ++ map index_of ys
map-append [] ys = refl
map-append (x ∷ xs) ys = ap (λ l. index_of x ∷ l) (map-append xs ys)

-- The parts of a valid schema with one key more.
pub with_key-valid :
    (primary name : Text) (type : KeyType) (timestamps : Bool) (d : KeyDefinition) (keys : Keys)
    (indexes : List IndexDefinition)
    → valid_parts primary type timestamps keys indexes ≡ true
    → valid_key timestamps name d ≡ true
    → (name == primary) ≡ false
    → valid_parts primary type timestamps
        (keys ++ (name, d) ∷ [])
        (indexes ++ map index_of (new_index name d.index))
      ≡ true
with_key-valid primary name type timestamps d keys indexes h k other =
    let (a, h1) = and_split (is_identifier primary) _ h in
    let (b, h2) = and_split (not (is_reserved primary timestamps)) _ h1 in
    let (c, h3) = and_split (is_primary_type type) _ h2 in
    let (e, h4) = and_split (not (is_in primary keys)) _ h3 in
    let (f, g) = and_split (valid_keys timestamps keys) _ h4 in
    let (named, k1) = and_split (is_identifier name) _ k in
    let (_, k2) = and_split (not (is_reserved name timestamps)) _ k1 in
    let (_, k3) = and_split (is_known_type d.type) _ k2 in
    let (_, index) = and_split (is_default_of d d.default) _ k3 in
    and_both a (
      and_both b (
        and_both c (
          and_both (not_in-append primary name d keys e other) (
            and_both (valid_keys-append timestamps keys name d f k) (
              valid_indexes-append primary name d keys indexes _ g
                (new_index-valid primary name d keys d.index named index))))))
