-- ===== src/Table/Buffered.antt =====
-- src/core/table.ts with a write buffer: get and exists look into the buffer before they ask the
-- driver. Rows stand under the user's keys, without lifetimes; there is no schema, cache or hook.
pub mod Reads
mod Tests
use kvdb_nodejs.Prelude.{
  ℕ, ◌-◌, Bool, true, false, List, Option, none, some, Text, text_keys, find_row, leb, is_some, not,
  if◌then◌else◌,
}
use kvdb_nodejs.Batcher.{Key, key_text, SetItem, OpType, set_op, delete_op, Pending, Batcher}
use kvdb_nodejs.Batcher.Flush.{set_item, get_pending, get_in_flight}

-- `ttlMs !== undefined && Date.now() - enqueuedAt >= ttlMs`
unfoldable pub item_expired : ℕ → Option ℕ → ℕ → Bool
item_expired now none enqueued_at = false
item_expired now (some ttl) enqueued_at = leb ttl (now - enqueued_at)

module _ {V C : Type 0} where
  abbrev pub item_value : ℕ → Option (SetItem V C) → Option V
  unfolding item_expired
  item_value now none = none
  item_value now (some i) = if item_expired now i.ttl_ms i.enqueued_at then none else some i.value

  -- The value of an operation in the buffer: none where it deletes.
  unfoldable pub op_value : ℕ → Pending V C → Option V
  unfolding set_item
  op_value now p = item_value now (set_item p.kind p.item)

  -- Of an operation that was looked up, or else from elsewhere.
  abbrev pub value_or : ℕ → Option (Pending V C) → Option V → Option V
  value_or now none elsewhere = elsewhere
  value_or now (some p) elsewhere = op_value now p

  unfoldable pub buffered_get : ℕ → Key → Batcher V C → List (Text × V) → Option V
  buffered_get now key b rows =
      value_or now (get_pending key b)
        (value_or now (get_in_flight key b) (find_row (key_text key) rows))

  abbrev pub op_exists : ℕ → OpType → Option (SetItem V C) → Bool
  unfolding item_expired
  op_exists now delete_op item = false
  op_exists now set_op none = true
  op_exists now set_op (some i) = not (item_expired now i.ttl_ms i.enqueued_at)

  abbrev pub exists_or : ℕ → Option (Pending V C) → Bool → Bool
  exists_or now none elsewhere = elsewhere
  exists_or now (some p) elsewhere = op_exists now p.kind p.item

  unfoldable pub buffered_exists : ℕ → Key → Batcher V C → List (Text × V) → Bool
  buffered_exists now key b rows =
      exists_or now (get_pending key b)
        (exists_or now (get_in_flight key b) (is_some (find_row (key_text key) rows)))

unfoldable pub buffered_runs : Unit {0}
unfolding item_expired op_value buffered_get buffered_exists
buffered_runs = tt
