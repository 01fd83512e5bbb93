-- ===== src/Query/Parser/Schema/Agree.antt =====
-- `parseSchemaWhere` and `parseWhere` on queries that name no column.
use kvdb_nodejs.Prelude.{
  and_split, ◌≡◌, refl, sym, Bool, true, false, ◌&&◌, not, Text, List, text_keys,
}
use mathlib.Core.Path.{subst}
use kvdb_nodejs.Core.Failure.{ok, ◌>>=◌}
use kvdb_nodejs.Query.Value.{Value, array, object, Items, no_items, item, Fields, no_fields, field}
use kvdb_nodejs.Query.Parser.{is_forbidden, has_forbidden, entry_kind}
use kvdb_nodejs.Query.Parser.Meaning.{
  valid_where, valid_entries, valid_entry, valid_branches, matches_where, matches_entry,
  every_branch, some_branch,
}
use kvdb_nodejs.Query.Parser.Correct.Combine.{Means, AllMean, BranchesMean, BranchesMean-node}
use kvdb_nodejs.Query.Parser.Correct.Entries.{none_fail, none_match}
use kvdb_nodejs.Query.Parser.Schema.{
  KnownSchema, extract_known_columns, join_parts, object_part, array_part, plain_part,
  parse_schema_parts, parse_schema_part, parse_schema_branches, parse_schema_where,
}
use kvdb_nodejs.Query.Parser.Schema.Plain.{is_group, is_plain, is_plain_entry, are_plain}
use kvdb_nodejs.Query.Parser.Schema.Parts.{
  schema_key-part_of, forbidden_first, Means-join, AllMean-join, AllMean-guard, object_part-Mean,
  array_part-Mean, plain_part-Mean,
}

valid_where-split : (fs : Fields) → valid_where fs ≡ (not (has_forbidden fs) && valid_entries fs)
unfolding valid_where has_forbidden
valid_where-split no_fields = refl
valid_where-split (field k v fs) = refl

not_group : (b c : Bool) → (not b && c) ≡ true → b ≡ false
not_group true c h = cc
not_group false c h = refl

mutual
  unfolding parse_schema_parts is_plain matches_where valid_where has_forbidden

  parts-Mean :
      (cols : List Text) (fs : Fields)
      → is_plain cols fs ≡ true
      → AllMean
          (parse_schema_parts cols fs)
          (not (has_forbidden fs) && valid_entries fs)
          (matches_where fs)
  parts-Mean cols no_fields h = (refl, λ doc. none_fail doc)
  parts-Mean cols (field k v fs) h =
      let plain = and_split (not (is_group k)) _ h in
      let both = and_split (is_plain_entry cols k v) _ plain.1 in
      subst (λ b. AllMean (parse_schema_parts cols (field k v fs)) b (matches_where (field k v fs)))
        (forbidden_first (is_forbidden k) (has_forbidden fs) (valid_entry k v) (valid_entries fs))
        (AllMean-guard (is_forbidden k) _ _ _ (
          AllMean-join (parse_schema_part cols k v) (parse_schema_parts cols fs) (valid_entry k v)
            (not (has_forbidden fs) && valid_entries fs) (matches_entry k v) (matches_where fs)
            (part-Mean cols k v (not_group (is_group k) _ h) both.0) (parts-Mean cols fs both.1)))

  part-Mean :
      (cols : List Text) (k : Text) (v : Value)
      → is_group k ≡ false
      → is_plain_entry cols k v ≡ true
      → AllMean (parse_schema_part cols k v) (valid_entry k v) (matches_entry k v)
  part-Mean cols k (object fs) g p =
      let sub = parse_schema_parts cols fs >>= λ ns. ok (join_parts ns) in
      subst
        (λ key.
          AllMean (object_part key cols k fs sub) (valid_entry k (object fs))
            (matches_entry k (object fs)))
        (sym (schema_key-part_of k g))
        (object_part-Mean (entry_kind k) cols k fs sub (is_plain cols fs) (valid_where fs)
          (matches_where fs) p
          (λ q.
            subst (λ b. Means sub b (matches_where fs)) (sym (valid_where-split fs))
              (Means-join (parse_schema_parts cols fs) _ (matches_where fs)
                (parts-Mean cols fs q))))
  part-Mean cols k (array vs) g p =
      subst
        (λ key.
          AllMean (array_part key cols k vs (parse_schema_branches cols vs))
            (valid_entry k (array vs)) (matches_entry k (array vs)))
        (sym (schema_key-part_of k g))
        (array_part-Mean (entry_kind k) cols k vs (parse_schema_branches cols vs)
          (are_plain cols vs) (valid_branches vs) (every_branch vs) (some_branch vs) p
          (λ q. branches-Mean cols vs q))
  part-Mean cols k v g p =
      subst (λ key. AllMean (plain_part key cols k v) (valid_entry k v) (matches_entry k v))
        (sym (schema_key-part_of k g)) (plain_part-Mean (entry_kind k) cols k v refl p)

  branches-Mean :
      (cols : List Text) (vs : Items)
      → are_plain cols vs ≡ true
      → BranchesMean
          (parse_schema_branches cols vs)
          (valid_branches vs)
          (every_branch vs)
          (some_branch vs)
  branches-Mean cols no_items h = (refl, λ doc. none_fail doc, λ doc. none_match doc)
  branches-Mean cols (item (object fs) vs) h =
      let both = and_split (is_plain cols fs) _ h in
      let sub = parse_schema_parts cols fs >>= λ ns. ok (join_parts ns) in
      BranchesMean-node sub (parse_schema_branches cols vs) (valid_where fs) (valid_branches vs)
        (matches_where fs) (every_branch vs) (some_branch vs)
        (subst (λ b. Means sub b (matches_where fs)) (sym (valid_where-split fs))
          (Means-join (parse_schema_parts cols fs) _ (matches_where fs)
            (parts-Mean cols fs both.0)))
        (branches-Mean cols vs both.1)
  branches-Mean cols (item v vs) h = (refl, refl)

-- On a query document without groups of columns or values, where no field stands under a known
-- column, `parseSchemaWhere` does what `parseWhere` does: it accepts the valid documents, with a
-- tree that matches the values that the document matches, and refuses the others.
pub parse_schema_where-Means :
    (known : KnownSchema) (fs : Fields)
    → is_plain (extract_known_columns known) fs ≡ true
    → Means (parse_schema_where known fs) (valid_where fs) (matches_where fs)
unfolding parse_schema_where
parse_schema_where-Means known fs h =
    let cols = extract_known_columns known in
    subst
      (λ b. Means (parse_schema_parts cols fs >>= λ ns. ok (join_parts ns)) b (matches_where fs))
      (sym (valid_where-split fs))
      (Means-join (parse_schema_parts cols fs) _ (matches_where fs) (parts-Mean cols fs h))
