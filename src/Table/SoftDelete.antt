-- ===== src/Table/SoftDelete.antt =====
-- src/core/table.ts with the option softDelete: get, delete, restore, hardDelete, isDeleted and exists
-- over the key-value driver, for JSON values.
pub mod Restore
mod Tests
use kvdb_nodejs.Prelude.{
  ℕ, zero, suc, Bool, true, false, ◌&&◌, ◌||◌, not, Option, none, some, Text, codes, eqb, is_some,
  ◌==◌, text_keys, if◌then◌else◌,
}
use kvdb_nodejs.Prelude.Decimal.{decimal}
use kvdb_nodejs.Core.Failure.{Failure, Result, ok, err}
use kvdb_nodejs.Core.Key.{KeyScope}
use kvdb_nodejs.Drivers.Sqlite.{Rows}
use kvdb_nodejs.Table
use kvdb_nodejs.Query.Value.{
  Value, Items, Fields, undefined, null, bool, num, str, array, object, no_items, item, no_fields,
  field, pos, own, count_fields,
}

-- `{ ...object, [k]: v }`, and `delete copy[k]`.
unfoldable pub put_field : Text → Value → Fields → Fields
put_field k v no_fields = field k v no_fields
put_field k v (field j w fs) =
    let rest = put_field k v fs in if j == k then field j v fs else field j w rest

unfoldable pub drop_field : Text → Fields → Fields
drop_field k no_fields = no_fields
drop_field k (field j w fs) = let rest = drop_field k fs in if j == k then fs else field j w rest

-- The own properties of an array that a spread copies.
unfoldable pub positions : ℕ → Items → Fields
positions i no_items = no_fields
positions i (item v vs) = field (decimal i) v (positions (suc i) vs)

abbrev pub is_defined : Option Value → Bool
is_defined none = false
is_defined (some undefined) = false
is_defined (some _) = true

-- `typeof value === "object" && value !== null && value._deletedAt !== undefined`
unfoldable pub has_deleted_at : Value → Bool
has_deleted_at (object fs) = is_defined (own (codes "_deletedAt") fs)
has_deleted_at _ = false

unfoldable pub is_marked : Option Value → Bool
unfolding has_deleted_at
is_marked none = false
is_marked (some v) = has_deleted_at v

-- What `delete` writes for a value.
unfoldable pub soft_deleted : ℕ → Value → Value
soft_deleted now (object fs) = object (put_field (codes "_deletedAt") (num (pos now)) fs)
soft_deleted now (array vs) =
    object (put_field (codes "_deletedAt") (num (pos now)) (positions 0 vs))
soft_deleted now v =
    object (field (codes "_value") v (field (codes "_deletedAt") (num (pos now)) no_fields))

-- What `restore` writes for a marked object.
abbrev pub unwrapped : Fields → Option Value → Value
unwrapped fs none = object (drop_field (codes "_deletedAt") fs)
unwrapped fs (some v) =
    if eqb (count_fields fs) 2 then v else object (drop_field (codes "_deletedAt") fs)

unfoldable pub restored : Value → Value
restored (object fs) = unwrapped fs (own (codes "_value") fs)
restored v = v

-- `set`, where no value is a deletion of the row.
abbrev pub after_write : Bool → Result (Unit {0}) → Rows Value → Result Bool × Rows Value
after_write answer (ok _) rows = (ok answer, rows)
after_write answer (err e) rows = (err e, rows)

unfoldable pub hide_deleted : Bool → Option Value → Option Value
unfolding is_marked
hide_deleted hides v = if hides && is_marked v then none else v

abbrev pub hiding : Bool → Result (Option Value) → Rows Value → Result (Option Value) × Rows Value
hiding hides (ok v) rows = (ok (hide_deleted hides v), rows)
hiding hides (err e) rows = (err e, rows)

-- `softDeleteEnabled` is the first argument of each operation.
unfoldable pub soft_get :
    Bool → Bool → KeyScope → ℕ → Text → Rows Value → Result (Option Value) × Rows Value
soft_get enabled include_deleted scope now key rows =
    let (r, rows') = Table.get scope now key rows in hiding (enabled && not include_deleted) r rows'

abbrev pub mark_found :
    KeyScope → ℕ → Text → Result (Option Value) → Rows Value → Result Bool × Rows Value
mark_found scope now key (err e) rows = (err e, rows)
mark_found scope now key (ok none) rows = (ok false, rows)
mark_found scope now key (ok (some v)) rows =
    let (r, rows') = Table.set scope now key (soft_deleted now v) none rows in
    after_write true r rows'

unfoldable pub soft_delete :
    Bool → Bool → KeyScope → ℕ → Text → Rows Value → Result Bool × Rows Value
unfolding soft_get
soft_delete enabled hard scope now key rows =
    if enabled && not hard
    then (let (r, rows') = soft_get enabled false scope now key rows in
        mark_found scope now key r rows')
    else Table.delete scope key rows

abbrev pub restore_found :
    KeyScope → ℕ → Text → Result (Option Value) → Rows Value → Result Bool × Rows Value
restore_found scope now key (err e) rows = (err e, rows)
restore_found scope now key (ok none) rows = (ok false, rows)
restore_found scope now key (ok (some v)) rows =
    if has_deleted_at v
    then (let (r, rows') = Table.set scope now key (restored v) none rows in
        after_write true r rows')
    else (ok false, rows)

unfoldable pub restore : Bool → KeyScope → ℕ → Text → Rows Value → Result Bool × Rows Value
unfolding soft_get
restore enabled scope now key rows =
    let (r, rows') = soft_get enabled true scope now key rows in restore_found scope now key r rows'

unfoldable pub hard_delete : Bool → KeyScope → ℕ → Text → Rows Value → Result Bool × Rows Value
unfolding soft_delete
hard_delete enabled scope now key rows = soft_delete enabled true scope now key rows

abbrev pub tells :
    (Option Value → Bool) → Result (Option Value) → Rows Value → Result Bool × Rows Value
tells test (ok v) rows = (ok (test v), rows)
tells test (err e) rows = (err e, rows)

unfoldable pub is_deleted : Bool → KeyScope → ℕ → Text → Rows Value → Result Bool × Rows Value
unfolding soft_get
is_deleted enabled scope now key rows =
    let (r, rows') = soft_get enabled true scope now key rows in tells is_marked r rows'

unfoldable pub soft_exists : Bool → KeyScope → ℕ → Text → Rows Value → Result Bool × Rows Value
unfolding soft_get
soft_exists enabled scope now key rows =
    if enabled
    then (let (r, rows') = soft_get enabled false scope now key rows in
        tells (λ v. is_some v) r rows')
    else Table.exists scope now key rows

unfoldable pub soft_delete_runs : Unit {0}
unfolding put_field drop_field positions has_deleted_at is_marked soft_deleted restored hide_deleted
    soft_get soft_delete restore hard_delete is_deleted soft_exists own count_fields
soft_delete_runs = tt
