-- ===== src/Query/Parser/Schema/Plain.antt =====
-- `parseSchemaWhere` on queries that name no column.
use kvdb_nodejs.Prelude.{Bool, true, ◌&&◌, ◌||◌, not, Text, List, split, ◌==◌, text_keys, codes}
use kvdb_nodejs.Query.Value.{Value, array, object, Items, no_items, item, Fields, no_fields, field}
use kvdb_nodejs.Query.Parser.{
  EntryKind, and_key, or_key, nor_key, not_key, unknown_key, field_key, entry_kind,
}
use kvdb_nodejs.Query.Parser.Schema.{
  is_known, first_part, SchemaKey, and_part, or_part, nor_part, not_part, unknown_part, field_part,
}

-- The kind of an entry, where it is not a group of columns or values.
unfoldable pub part_of : EntryKind → SchemaKey
part_of and_key = and_part
part_of or_key = or_part
part_of nor_key = nor_part
part_of not_key = not_part
part_of unknown_key = unknown_part
part_of field_key = field_part

unfoldable pub is_group : Text → Bool
is_group k = k == codes "columns" || k == codes "value"

-- What is a query again, under a key of this kind.
unfoldable pub under : EntryKind → Bool → Bool → Bool
under field_key plain root_unknown = root_unknown
under unknown_key plain root_unknown = true
under kind plain root_unknown = plain

-- No group and no known column, wherever a query stands.
unfoldable mutual
  pub is_plain : List Text → Fields → Bool
  is_plain cols no_fields = true
  is_plain cols (field k v fs) = not (is_group k) && (is_plain_entry cols k v && is_plain cols fs)

  pub is_plain_entry : List Text → Text → Value → Bool
  is_plain_entry cols k (object fs) =
      under (entry_kind k) (is_plain cols fs) (not (is_known (first_part (split b'.' k)) cols))
  is_plain_entry cols k (array vs) =
      under (entry_kind k) (are_plain cols vs) (not (is_known (first_part (split b'.' k)) cols))
  is_plain_entry cols k v =
      under (entry_kind k) true (not (is_known (first_part (split b'.' k)) cols))

  pub are_plain : List Text → Items → Bool
  are_plain cols no_items = true
  are_plain cols (item (object fs) vs) = is_plain cols fs && are_plain cols vs
  are_plain cols (item v vs) = are_plain cols vs
