-- ===== src/Drivers/Sqlite.antt =====
-- The key-value table of src/drivers/sqlite/sqlite-driver.ts. A row is the key with its entry; the
-- SQL statements are the operations of an association list. `now` is the one clock reading of a
-- call, and an `update` whose mutator throws is rolled back.
pub mod View
use kvdb_nodejs.Prelude.{
  ℕ, zero, suc, ◌+◌, ◌≡◌, refl, is_some, text_keys, Bool, true, false, List, [], ◌∷◌, map, Option,
  none, some, arith, Text, find_row, upsert, remove, filter, is_prefix, not, ◌&&◌, if◌then◌else◌,
  length, ◌==◌, ==_iff, find_row-upsert, find_row-remove,
}
use kvdb_nodejs.Core.Failure.{Failure, Result, ok, err}
use kvdb_nodejs.Core.Expiry.{RawEntry, is_expired, expires_at_from_ttl}

abbrev pub Rows : Type 0 → Type 0
Rows V = List (Text × RawEntry V)

-- `UpdateResult` of src/drivers/types.ts.
pub record UpdateResult (V : Type 0) : Type 0 where
  pub value : V
  pub ttl_ms : Option ℕ

module _ {V : Type 0} where
  -- A fresh entry, as `set` and `update` write it.
  abbrev pub entry : ℕ → V → Option ℕ → RawEntry V
  entry now value ttl = record { value = value; expires_at = expires_at_from_ttl ttl now }

  row_of : ℕ → Text → Rows V → Option (RawEntry V) → Option (RawEntry V) × Rows V
  row_of now key rows none = (none, rows)
  row_of now key rows (some e) =
      if is_expired e now then (none, remove key rows) else (some e, rows)

  -- An expired row is deleted when it is read.
  unfoldable pub get : ℕ → Text → Rows V → Option (RawEntry V) × Rows V
  unfolding row_of
  get now key rows = row_of now key rows (find_row key rows)

  unfoldable pub set : ℕ → Text → V → Option ℕ → Rows V → Rows V
  set now key value ttl rows = upsert key (entry now value ttl) rows

  -- Whether a row was there, expired or not.
  unfoldable pub delete : Text → Rows V → Bool × Rows V
  delete key rows = (is_some (find_row key rows), remove key rows)

  finish : ℕ → Text → Rows V → Rows V → Result (UpdateResult V) → Result V × Rows V
  finish now key before rows (ok r) = (ok r.value, upsert key (entry now r.value r.ttl_ms) rows)
  finish now key before rows (err e) = (err e, before)

  unfoldable pub update :
      ℕ → Text → (Option (RawEntry V) → Result (UpdateResult V)) → Rows V → Result V × Rows V
  unfolding finish get
  update now key mutate rows =
      let (current, read) = get now key rows in finish now key rows read (mutate current)

  unfoldable pub has : ℕ → Text → Rows V → Bool × Rows V
  unfolding get
  has now key rows = let (current, read) = get now key rows in (is_some current, read)

  unfoldable pub set_many : ℕ → List (Text × V × Option ℕ) → Rows V → Rows V
  unfolding set
  set_many now [] rows = rows
  set_many now ((key, value, ttl) ∷ entries) rows =
      set_many now entries (set now key value ttl rows)

  unfoldable pub delete_many : List Text → Rows V → ℕ × Rows V
  unfolding delete
  delete_many [] rows = (0, rows)
  delete_many (key ∷ keys) rows =
      let (gone, rest) = delete key rows in
      let (count, after) = delete_many keys rest in (if gone then suc count else count, after)

  unfoldable pub get_by_prefix : ℕ → Text → Rows V → List (Text × V)
  get_by_prefix now prefix rows =
      map (λ row. (row.0, row.1.value))
        (filter (λ row. is_prefix prefix row.0 && not (is_expired row.1 now)) rows)

  unfoldable pub delete_by_prefix : Text → Rows V → ℕ × Rows V
  delete_by_prefix prefix rows = (
    length (filter (λ row. is_prefix prefix row.0) rows),
    filter (λ row. not (is_prefix prefix row.0)) rows,
  )

  unfoldable pub purge_expired : ℕ → Rows V → ℕ × Rows V
  purge_expired now rows = (
    length (filter (λ row. is_expired row.1 now) rows),
    filter (λ row. not (is_expired row.1 now)) rows,
  )
