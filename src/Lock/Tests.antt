-- ===== src/Lock/Tests.antt =====
-- The lock manager on concrete inputs.
use kvdb_nodejs.Prelude.{
  ℕ, ◌≡◌, ◌≢◌, refl, true, false, List, [], ◌∷◌, none, some, Text, codes, arith, text_keys,
  number_keys, find_row,
}
use kvdb_nodejs.Core.Failure.{ok}
use kvdb_nodejs.Core.Key.{KeyScope, to_physical_key}
use kvdb_nodejs.Drivers.Sqlite.{Rows}
use kvdb_nodejs.Drivers.Sqlite.View.{view}
use kvdb_nodejs.Table.{table_runs}
use kvdb_nodejs.Lock.{
  LockRecord, LockHandle, LockOptions, Round, waiting, acquire_lock, next_sleep, attempt, handle_of,
  release, extend,
}
use kvdb_nodejs.Lock.Attempt.{stored}
use kvdb_nodejs.Lock.Exclusion.{World, Event, passes, attempts, extends, run, IsSound}
use kvdb_nodejs.Lock.Exclusion.Sound.{mutual_exclusion}
use kvdb_nodejs.Lock.Waiting.{acquire_lock_ends, stale_release_evicts}

abbrev locks : KeyScope
locks = record { table_prefix = []; namespace = codes "_kvdb_locks" }

abbrev job : Text
job = codes "job"

abbrev job_key : Text
job_key = codes "_kvdb_locks:job"

job_at : to_physical_key locks job ≡ ok job_key
unfolding table_runs
job_at = refl

abbrev quick : LockOptions
quick = record {
  ttl_ms = some 50;
  wait_timeout_ms = some 20;
  retry_interval_ms = some 10;
  auto_heartbeat = some false;
}

abbrev idle : World
idle = record { now = 100; rows = []; handles = [] }

abbrev history : List Event
history = attempts 1 quick ∷ passes 20 ∷ extends 1 100 ∷ attempts 2 quick ∷ passes 60 ∷ []

-- The second process is refused, and the first one's lease runs on.
holder :
    find_row 1 (run locks job idle history).handles
    ≡ some (record {
      key = job;
      token = 1;
      acquired_at = 100;
      expires_at = 220;
      active = true;
      heartbeat = none;
    })
unfolding run attempt handle_of release extend table_runs
holder = refl

refused : find_row 2 (run locks job idle history).handles ≡ none
unfolding run attempt handle_of release extend table_runs
refused = refl

idle-IsSound : IsSound job job_key idle
unfolding table_runs
idle-IsSound = record { token_of = λ t h f. cc; owner = λ t h f. cc }

mutual_exclusion_example : ◌≡◌ {A = ℕ} 1 1
unfolding run attempt handle_of release extend table_runs
mutual_exclusion_example =
    mutual_exclusion locks job job_key job_at idle history 1 1 _ _
      (refl, (tt, (tt, (refl, (tt, tt))))) idle-IsSound holder holder (refl, omega arith)
      (refl, omega arith)

-- A process that was let in at 100 for 50 ms, and the record of another one let in at 160.
abbrev late : LockHandle
late = record {
  key = job;
  token = 1;
  acquired_at = 100;
  expires_at = 150;
  active = true;
  heartbeat = none;
}

abbrev taken : Rows LockRecord
taken = (job_key, stored 160 (record { token = 2; acquired_at = 160; expires_at = 1160 }) 1000) ∷ []

stale_release_evicts_example :
    (attempt locks 171 job 3 50 (release locks 170 late taken).2).0 ≡ true
unfolding table_runs view
stale_release_evicts_example =
    stale_release_evicts locks late job_key job_at 170 171 3 50 taken _ refl refl (omega arith)
      (omega arith) (omega arith)

round : ℕ → Round
round t = record { now = t; rows = taken; later = t }

acquire_lock_ends_example :
    acquire_lock locks job 3 quick 170 0 (round 170 ∷ round 181 ∷ round 195 ∷ []) ≢ waiting 0
unfolding round next_sleep
acquire_lock_ends_example =
    acquire_lock_ends locks job 3 170 quick (round 170 ∷ round 181 ∷ round 195 ∷ []) (omega arith)
      (omega arith) (omega arith) 0
