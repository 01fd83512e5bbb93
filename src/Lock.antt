-- ===== src/Lock.antt =====
-- src/lock/lock.ts: the lock manager over its table. A token stands for a `randomUUID()`; the clock
-- readings inside one call of the table are one reading, `now`. The heartbeat timer is its interval:
-- when it fires, it is a call of `extend`.
pub mod Attempt
pub mod Exclusion
pub mod Waiting
mod Tests
use kvdb_nodejs.Prelude.{
  ℕ, zero, suc, ◌+◌, ◌-◌, ◌/◌, ◌≡◌, min, max, Bool, true, false, ◌&&◌, List, [], ◌∷◌, Option, none,
  some, Text, get_or, ltb, leb, eqb, if◌then◌else◌,
}
use kvdb_nodejs.Core.Failure.{
  Failure, Result, ok, err, kvdb_error, plain_error, query, thrown, kvdb_lock_error,
}
use kvdb_nodejs.Core.Key.{KeyScope}
use kvdb_nodejs.Drivers.Sqlite.{Rows}
use kvdb_nodejs.Table
use kvdb_nodejs.Table.{Patch, UpdateOptions}

pub record LockRecord : Type 0 where
  pub token : ℕ
  pub acquired_at : ℕ
  pub expires_at : ℕ

pub record LockOptions : Type 0 where
  pub ttl_ms : Option ℕ
  pub wait_timeout_ms : Option ℕ
  pub retry_interval_ms : Option ℕ
  pub auto_heartbeat : Option Bool

abbrev pub default_ttl_ms : ℕ
default_ttl_ms = 10000

abbrev pub default_wait_timeout_ms : ℕ
default_wait_timeout_ms = 5000

abbrev pub default_retry_interval_ms : ℕ
default_retry_interval_ms = 100

abbrev pub ttl_of : LockOptions → ℕ
ttl_of o = get_or default_ttl_ms o.ttl_ms

abbrev pub wait_of : LockOptions → ℕ
wait_of o = get_or default_wait_timeout_ms o.wait_timeout_ms

abbrev pub retry_of : LockOptions → ℕ
retry_of o = get_or default_retry_interval_ms o.retry_interval_ms

-- The mutator of an attempt: it throws where another process holds the lock.
unfoldable pub claim : ℕ → ℕ → ℕ → Patch LockRecord
claim token ttl now none = ok (record { token = token; acquired_at = now; expires_at = now + ttl })
claim token ttl now (some curr) =
    if ltb now curr.expires_at
    then err (plain_error "__KVDB_LOCKED__")
    else ok (record { token = token; acquired_at = now; expires_at = now + ttl })

abbrev pub claim_options : ℕ → UpdateOptions LockRecord
claim_options ttl = record { upsert = true; default = none; ttl_ms = some ttl }

abbrev pub succeeded : Result LockRecord → Bool
succeeded (ok r) = true
succeeded (err e) = false

-- One round of the loop up to `acquired`: any error counts as not acquired.
unfoldable pub attempt : KeyScope → ℕ → Text → ℕ → ℕ → Rows LockRecord → Bool × Rows LockRecord
unfolding claim
attempt scope now key token ttl rows =
    let (r, rows') = Table.update scope now key (claim token ttl now) (claim_options ttl) rows in
    (succeeded r, rows')

pub record LockHandle : Type 0 where
  pub key : Text
  pub token : ℕ
  pub acquired_at : ℕ
  pub expires_at : ℕ
  pub active : Bool
  pub heartbeat : Option ℕ

unfoldable pub heartbeat_interval : LockOptions → Option ℕ
heartbeat_interval o =
    if get_or true o.auto_heartbeat && leb 1000 (ttl_of o)
    then some (max 500 (ttl_of o / 2))
    else none

unfoldable pub handle_of : Text → ℕ → LockOptions → ℕ → LockHandle
unfolding heartbeat_interval
handle_of key token o now = record {
  key = key;
  token = token;
  acquired_at = now;
  expires_at = now + ttl_of o;
  active = true;
  heartbeat = heartbeat_interval o;
}

-- What `release` writes for the record that it finds.
abbrev pub disowned : ℕ → LockRecord → LockRecord
disowned token curr = if eqb curr.token token then record curr { expires_at = 0 } else curr

-- The mutator of `release`. It is not called without a record: this update does not upsert.
unfoldable pub disown : ℕ → Patch LockRecord
disown token none = err (kvdb_error query)
disown token (some curr) = ok (disowned token curr)

unfoldable pub release :
    KeyScope → ℕ → LockHandle → Rows LockRecord → Bool × LockHandle × Rows LockRecord
unfolding disown
release scope now h rows =
    let (r, rows') =
      Table.update scope now h.key (disown h.token)
        (record { upsert = false; default = none; ttl_ms = some 1 }) rows in
    if h.active
    then (succeeded r, record h { active = false; heartbeat = none }, rows')
    else (false, h, rows)

-- The mutator of `extend`: it throws where the record has another token.
unfoldable pub renew : ℕ → ℕ → Patch LockRecord
renew token expiry none = err (plain_error "__KVDB_LOCK_LOST__")
renew token expiry (some curr) =
    if eqb curr.token token
    then ok (record curr { expires_at = expiry })
    else err (plain_error "__KVDB_LOCK_LOST__")

extended : LockHandle → ℕ → Result LockRecord → Bool × LockHandle
extended h expiry (ok r) = (true, record h { expires_at = expiry })
extended h expiry (err e) = (false, record h { active = false; heartbeat = none })

unfoldable pub extend :
    KeyScope → ℕ → ℕ → LockHandle → Rows LockRecord → Bool × LockHandle × Rows LockRecord
unfolding renew extended
extend scope now additional h rows =
    let (r, rows') =
      Table.update scope now h.key (renew h.token (now + additional))
        (record { upsert = false; default = none; ttl_ms = some additional }) rows in
    let (success, h') = extended h (now + additional) r in
    if h.active then (success, h', rows') else (false, h, rows)

-- What a round of the waiting loop meets: the clock and the rows at its attempt, and the clock after.
pub record Round : Type 0 where
  pub now : ℕ
  pub rows : Rows LockRecord
  pub later : ℕ

-- `waiting` is the loop that still runs when the given rounds are over.
pub data Outcome : Type 0 where
  granted : LockHandle → Rows LockRecord → Outcome
  timed_out : Outcome
  waiting : ℕ → Outcome

-- The sleep before the next round.
unfoldable pub next_sleep : LockOptions → ℕ → ℕ
next_sleep o elapsed = min (retry_of o) (wait_of o - elapsed)

unfoldable pub acquire_lock : KeyScope → Text → ℕ → LockOptions → ℕ → ℕ → List Round → Outcome
unfolding attempt handle_of next_sleep
acquire_lock scope key token o start slept [] = waiting slept
acquire_lock scope key token o start slept (r ∷ rounds) =
    let (acquired, rows') = attempt scope r.now key token (ttl_of o) r.rows in
    let elapsed = r.later - start in
    let rest = acquire_lock scope key token o start (next_sleep o elapsed) rounds in
    if acquired
    then granted (handle_of key token o r.now) rows'
    else if leb (wait_of o) elapsed
    then timed_out
    else rest

-- `withLock`: refused where the lock was not granted, and otherwise what the section returned or
-- threw, with the rows that the release in the `finally` block leaves.
pub data SectionOutcome (A : Type 0) : Type 0 where
  refused : Failure → SectionOutcome A
  finished : Result A → Rows LockRecord → SectionOutcome A
  pending : SectionOutcome A

unfoldable pub with_lock :
    {A : Type 0}
    → KeyScope
    → Outcome
    → (LockHandle → Rows LockRecord → Result A × ℕ × Rows LockRecord)
    → SectionOutcome A
unfolding release
with_lock scope (granted h rows) section =
    let (result, later, rows') = section h rows in
    let (done, h', rows'') = release scope later h rows' in finished result rows''
with_lock scope timed_out section = refused (thrown kvdb_lock_error)
with_lock scope (waiting s) section = pending
