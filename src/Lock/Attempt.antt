-- ===== src/Lock/Attempt.antt =====
-- Who an attempt lets in, and what `extend` and `release` do to the stored record.
use kvdb_nodejs.Prelude.{
  ℕ, ◌+◌, ◌≤◌, ◌<◌, ◌≡◌, ◌≢◌, refl, true, false, Option, none, some, Text, arith, text_keys, ◌==◌,
  if◌then◌else◌,
}
use kvdb_nodejs.Core.Failure.{Failure, ok, err, plain_error, kvdb_error, query}
use kvdb_nodejs.Core.Expiry.{RawEntry}
use kvdb_nodejs.Core.Key.{KeyScope, to_physical_key}
use kvdb_nodejs.Drivers.Sqlite.{Rows, entry}
use kvdb_nodejs.Drivers.Sqlite.View.{view, live}
use kvdb_nodejs.Table.{mutate_with}
use kvdb_nodejs.Table.View.{view-table_update, table_update-err}
use kvdb_nodejs.Lock.{
  LockRecord, LockHandle, claim, claim_options, attempt, disown, disowned, release, renew, extend,
}

-- The lock is free to a process at `now`: no record, or one whose own expiry has passed.
abbrev pub IsFree : ℕ → Option (RawEntry LockRecord) → Type 0
IsFree now none = Unit
IsFree now (some e) = e.value.expires_at ≤ now

-- The record, if there is one, has another token.
abbrev pub IsLost : ℕ → Option (RawEntry LockRecord) → Type 0
IsLost token none = Unit
IsLost token (some e) = e.value.token ≢ token

abbrev pub stored : ℕ → LockRecord → ℕ → RawEntry LockRecord
stored now r ttl = entry now r (some ttl)

module _ (scope : KeyScope) (key pk : Text) (at : to_physical_key scope key ≡ ok pk) where
  pub attempt_held :
      (now token ttl : ℕ) (rows : Rows LockRecord) (e : RawEntry LockRecord)
      → view now pk rows ≡ some e
      → now < e.value.expires_at
      → attempt scope now key token ttl rows ≡ (false, rows)
  unfolding attempt
  attempt_held now token ttl rows e v h = rw (
      table_update-err scope key pk at now (claim token ttl now) (claim_options ttl) rows
        (plain_error "__KVDB_LOCKED__") (rw v (unfold mutate_with claim in ground arith)))

  claim_free :
      (now token ttl : ℕ) (o : Option (RawEntry LockRecord))
      → IsFree now o
      → mutate_with now (claim token ttl now) (claim_options ttl) o
        ≡ ok (record {
          value = record { token = token; acquired_at = now; expires_at = now + ttl };
          ttl_ms = some ttl;
        })
  unfolding mutate_with claim
  claim_free now token ttl none f = refl
  claim_free now token ttl (some e) f = ground arith

  pub attempt_free :
      (now later token ttl : ℕ) (j : Text) (rows : Rows LockRecord)
      → now ≤ later
      → IsFree now (view now pk rows)
      → ((attempt scope now key token ttl rows).0 ≡ true)
        × (view later j (attempt scope now key token ttl rows).1 ≡ (
            if pk == j
            then live later (
                some (
                  stored now
                    (record { token = token; acquired_at = now; expires_at = now + ttl })
                    ttl))
            else view later j rows))
  unfolding attempt
  attempt_free now later token ttl j rows h f =
      let u =
        view-table_update scope key pk at now later j (claim token ttl now) (claim_options ttl) rows
          _ h (claim_free now token ttl (view now pk rows) f) in
      (rw u.0, u.1)

module _ (scope : KeyScope) (h : LockHandle) (pk : Text) (at : to_physical_key scope h.key ≡ ok pk)
    (active : h.active ≡ true) (now later : ℕ) (j : Text) (rows : Rows LockRecord)
    (le : now ≤ later) where
  -- A release over a stored record rewrites it with a TTL of 1, whoever owns it.
  pub release-stored :
      (e : RawEntry LockRecord)
      → view now pk rows ≡ some e
      → ((release scope now h rows).0 ≡ true)
        × ((release scope now h rows).1 ≡ record h { active = false; heartbeat = none })
        × (view later j (release scope now h rows).2 ≡ (
            if pk == j
            then live later (some (stored now (disowned h.token e.value) 1))
            else view later j rows))
  unfolding release
  release-stored e v =
      let u =
        view-table_update scope h.key pk at now later j (disown h.token)
          (record { upsert = false; default = none; ttl_ms = some 1 }) rows
          (record { value = disowned h.token e.value; ttl_ms = some 1 }) le
          (rw v (unfold mutate_with disown in refl)) in
      (rw (active, u.0), rw active, rw active u.1)

  pub release_missing :
      view now pk rows ≡ none
      → release scope now h rows ≡ (false, record h { active = false; heartbeat = none }, rows)
  unfolding release
  release_missing v = rw (
    active,
    table_update-err scope h.key pk at now (disown h.token)
        (record { upsert = false; default = none; ttl_ms = some 1 }) rows (kvdb_error query)
        (rw v (unfold mutate_with in refl)),
  )

  -- An extension under the stored token moves both expiries.
  pub extend_own :
      (additional : ℕ) (e : RawEntry LockRecord)
      → view now pk rows ≡ some e
      → e.value.token ≡ h.token
      → ((extend scope now additional h rows).0 ≡ true)
        × ((extend scope now additional h rows).1 ≡ record h { expires_at = now + additional })
        × (view later j (extend scope now additional h rows).2 ≡ (
            if pk == j
            then live later
                (some (stored now (record e.value { expires_at = now + additional }) additional))
            else view later j rows))
  unfolding extend
  extend_own additional e v own =
      let u =
        view-table_update scope h.key pk at now later j (renew h.token (now + additional))
          (record { upsert = false; default = none; ttl_ms = some additional }) rows
          (record {
            value = record e.value { expires_at = now + additional };
            ttl_ms = some additional;
          })
          le (rw v (unfold mutate_with renew in ground arith)) in
      (rw (active, u.0), rw (active, u.0), rw active u.1)

renew_lost :
    (now additional token : ℕ) (o : Option (RawEntry LockRecord))
    → IsLost token o
    → (f : Failure) × (mutate_with now
          (renew token (now + additional))
          (record { upsert = false; default = none; ttl_ms = some additional })
          o
        ≡ err f)
unfolding mutate_with renew
renew_lost now additional token none lost = (kvdb_error query, refl)
renew_lost now additional token (some e) lost = (plain_error "__KVDB_LOCK_LOST__", ground arith)

-- Without it, the extension fails, changes no row, and ends the handle.
pub extend_lost :
    (scope : KeyScope) (h : LockHandle) (pk : Text) (now additional : ℕ) (rows : Rows LockRecord)
    → to_physical_key scope h.key ≡ ok pk
    → h.active ≡ true
    → IsLost h.token (view now pk rows)
    → extend scope now additional h rows
      ≡ (false, record h { active = false; heartbeat = none }, rows)
unfolding extend
extend_lost scope h pk now additional rows at active lost =
    let (f, e) = renew_lost now additional h.token (view now pk rows) lost in
    rw (
      active,
      table_update-err scope h.key pk at now (renew h.token (now + additional))
          (record { upsert = false; default = none; ttl_ms = some additional }) rows f e,
    )

-- After a release, or a lost extension, the handle's calls do nothing.
pub extend_inactive :
    (scope : KeyScope) (h : LockHandle) (now additional : ℕ) (rows : Rows LockRecord)
    → h.active ≡ false
    → extend scope now additional h rows ≡ (false, h, rows)
unfolding extend
extend_inactive scope h now additional rows dead = ground arith

pub release_inactive :
    (scope : KeyScope) (h : LockHandle) (now : ℕ) (rows : Rows LockRecord)
    → h.active ≡ false
    → release scope now h rows ≡ (false, h, rows)
unfolding release
release_inactive scope h now rows dead = ground arith
