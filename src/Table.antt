-- ===== src/Table.antt =====
-- src/core/table.ts over the key-value driver: a table with no schema, no write buffer, no cache,
-- no hooks and no soft delete, which is how the lock, limiter and idempotency managers open theirs
-- in a database that configures none of these. A patch is the function form `(current) => next`.
pub mod View
pub mod SoftDelete
pub mod Buffered
use Prim.Native.String.{String}
use kvdb_nodejs.Prelude.{
  ℕ, ◌+◌, ◌≡◌, Bool, true, false, List, Option, none, some, Text, or_else, is_some, text_keys,
  has_unit, is_prefix, text_beq, find_row, remove, filter, if◌then◌else◌,
}
use kvdb_nodejs.Core.Failure.{Failure, Result, ok, err, kvdb_error, query, ◌>>=◌}
use kvdb_nodejs.Core.Expiry.{RawEntry, ttl_from_expiry, is_expired, expires_at_from_ttl}
use kvdb_nodejs.Prelude
use kvdb_nodejs.Core.Key.{KeyScope, to_physical_key, namespace_prefix}
use kvdb_nodejs.Drivers.Sqlite
use kvdb_nodejs.Drivers.Sqlite.{Rows, UpdateResult}

pub record UpdateOptions (V : Type 0) : Type 0 where
  pub upsert : Bool
  pub default : Option V
  pub ttl_ms : Option ℕ

abbrev pub Patch : Type 0 → Type 0
Patch V = Option V → Result V

module _ {V A : Type 0} where
  -- Each operation resolves the physical key first, which fails in an invalid scope.
  abbrev pub located :
      Result Text → (Text → Rows V → Result A × Rows V) → Rows V → Result A × Rows V
  located (ok key) body rows = body key rows
  located (err e) body rows = (err e, rows)

module _ {V : Type 0} where
  abbrev pub value_of : Option (RawEntry V) → Option V
  value_of none = none
  value_of (some e) = some e.value

  unfoldable pub get : KeyScope → ℕ → Text → Rows V → Result (Option V) × Rows V
  get scope now key =
      located (to_physical_key scope key)
        λ pk rows. let (entry, rows') = Sqlite.get now pk rows in (ok (value_of entry), rows')

  unfoldable pub set : KeyScope → ℕ → Text → V → Option ℕ → Rows V → Result (Unit {0}) × Rows V
  set scope now key value ttl =
      located (to_physical_key scope key) λ pk rows. (ok tt, Sqlite.set now pk value ttl rows)

  unfoldable pub delete : KeyScope → Text → Rows V → Result Bool × Rows V
  delete scope key =
      located (to_physical_key scope key)
        λ pk rows. let (gone, rows') = Sqlite.delete pk rows in (ok gone, rows')

  unfoldable pub exists : KeyScope → ℕ → Text → Rows V → Result Bool × Rows V
  exists scope now key =
      located (to_physical_key scope key)
        λ pk rows. let (found, rows') = Sqlite.has now pk rows in (ok found, rows')

  unfoldable pub clear : KeyScope → Rows V → Result (Unit {0}) × Rows V
  clear scope =
      located (namespace_prefix scope)
        λ prefix rows. (ok tt, (Sqlite.delete_by_prefix prefix rows).1)

  -- The mutator that `update` hands to the driver.
  unfoldable pub mutate_with :
      ℕ → Patch V → UpdateOptions V → Option (RawEntry V) → Result (UpdateResult V)
  mutate_with now patch options none =
      if options.upsert
      then (do
        written ← patch options.default
        ok (record { value = written; ttl_ms = options.ttl_ms }))
      else err (kvdb_error query)
  mutate_with now patch options (some e) = do
    written ← patch (some e.value)
    ok (record {
      value = written;
      ttl_ms = or_else options.ttl_ms (ttl_from_expiry e.expires_at now);
    })

  unfoldable pub update :
      KeyScope → ℕ → Text → Patch V → UpdateOptions V → Rows V → Result V × Rows V
  update scope now key patch options =
      located (to_physical_key scope key)
        λ pk rows. Sqlite.update now pk (mutate_with now patch options) rows

-- `increment` without a path, on a table of numbers: the counter, or `initial` where there is none.
add_to : ℕ → ℕ → Patch ℕ
add_to initial amount none = ok (initial + amount)
add_to initial amount (some n) = ok (n + amount)

unfoldable pub increment : KeyScope → ℕ → Text → ℕ → ℕ → Option ℕ → Rows ℕ → Result ℕ × Rows ℕ
unfolding add_to update
increment scope now key amount initial ttl =
    update scope now key (add_to initial amount)
      (record { upsert = true; default = some initial; ttl_ms = ttl })

-- What a test unfolds to run a table on concrete rows.
unfoldable pub table_runs : Unit {0}
unfolding get set delete exists clear mutate_with update increment to_physical_key namespace_prefix
    has_unit is_prefix text_beq find_row remove Prelude.upsert filter Sqlite.get Sqlite.set
    Sqlite.delete Sqlite.update Sqlite.has Sqlite.delete_by_prefix is_expired expires_at_from_ttl
    ttl_from_expiry
table_runs = tt
