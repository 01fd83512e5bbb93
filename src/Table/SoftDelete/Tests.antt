-- ===== src/Table/SoftDelete/Tests.antt =====
-- Soft deletes on concrete rows.
use kvdb_nodejs.Prelude.{◌≡◌, refl, true, false, none, some, Text, codes, text_beq, [], ◌∷◌}
use kvdb_nodejs.Prelude.Decimal.{decimal}
use kvdb_nodejs.Core.Failure.{ok}
use kvdb_nodejs.Core.Key.{KeyScope}
use kvdb_nodejs.Drivers.Sqlite.{Rows, entry}
use kvdb_nodejs.Table.{table_runs}
use kvdb_nodejs.Query.Value.{Value, null, num, array, object, item, no_items, field, no_fields, pos}
use kvdb_nodejs.Table.SoftDelete.{
  soft_get, soft_delete, restore, hard_delete, is_deleted, soft_exists, soft_deleted, restored,
  soft_delete_runs,
}
use kvdb_nodejs.Table.SoftDelete.Restore.{restore-soft_delete}

abbrev users : KeyScope
users = record { table_prefix = []; namespace = codes "users" }

abbrev ada : Text
ada = codes "ada"

abbrev person : Value
person = object (field (codes "age") (num (pos 36)) no_fields)

-- The row expires at 1000.
abbrev rows : Rows Value
rows = (codes "users:ada", entry 0 person (some 1000)) ∷ []

restore-soft_delete_example :
    let (deleted, gone) = soft_delete true false users 10 ada rows in
    let (restores, back) = restore true users 20 ada gone in
    (deleted ≡ ok true)
    × ((soft_get true false users 20 ada gone).0 ≡ ok none)
    × ((is_deleted true users 20 ada gone).0 ≡ ok true)
    × (restores ≡ ok true)
    × ((soft_get true false users 5000 ada back).0 ≡ ok (some person))
unfolding table_runs soft_delete_runs
restore-soft_delete_example =
    restore-soft_delete users ada (codes "users:ada") refl 10 20 5000 person rows (refl, refl) refl

-- An array comes back as an object, and a sole `_value` without its object.
array_restored :
    restored (soft_deleted 5 (array (item null no_items)))
    ≡ object (field (codes "0") null no_fields)
unfolding soft_delete_runs text_beq decimal
array_restored = refl

value_restored :
    restored (soft_deleted 5 (object (field (codes "_value") (num (pos 7)) no_fields)))
    ≡ num (pos 7)
unfolding soft_delete_runs text_beq
value_restored = refl

hard_deleted : (hard_delete true users 10 ada rows) ≡ (ok true, [])
unfolding table_runs soft_delete_runs
hard_deleted = refl

existing : (soft_exists true users 10 ada rows).0 ≡ ok true
unfolding table_runs soft_delete_runs
existing = refl
