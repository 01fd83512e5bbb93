-- ===== src/Queue/Settle.antt =====
-- `ack`, `nack` and `heartbeat`. Each reads the row first and writes it later, in a second call; the
-- two halves are definitions of their own, so that other calls can come between them.
pub mod Token
pub mod Retry
pub mod Race
use kvdb_nodejs.Prelude.{
  ℕ, zero, suc, ◌+◌, ◌-◌, ◌*◌, ◌^◌, Bool, true, false, codes, List, [], ◌∷◌, Option, none, some,
  Text, text_keys, find_row, get_or, ltb, leb, eqb, if◌then◌else◌,
}
use kvdb_nodejs.Core.Failure.{
  Failure, Result, ok, err, thrown, kvdb_queue_error, ◌>>=◌, Result-cases,
}
use kvdb_nodejs.Queue.Job.{
  BackoffOptions, fixed, exponential, JobState, active, delayed, completed, failed, JobData,
  QueueColumns, JobRecord, Jobs, Config, Store, Cron, update_row, delete_row,
}
use kvdb_nodejs.Queue.Schedule.{trigger_next_schedule}

unfoldable pub calculate_backoff : BackoffOptions → ℕ → ℕ
calculate_backoff (fixed delay_ms) attempts = delay_ms
calculate_backoff (exponential delay_ms) attempts = delay_ms * 2 ^ (attempts - 1)

-- `lockToken === token`, where the column is not null.
unfoldable pub holds_token : QueueColumns → ℕ → Bool
holds_token c token = elim c.lock_token [ none ↦ false | some t ↦ eqb t token ]

-- The columns that every end of a lease writes.
abbrev pub unlocked : JobState → ℕ → QueueColumns → QueueColumns
unlocked state now c = record c {
  state = state;
  lock_token = none;
  lock_expires_at = none;
  updated_at = now;
}

abbrev pub failure_text : Option Text → Text
failure_text message = get_or (codes "Job execution failed") message

module _ {P R : Type 0} where
  -- What the row says after the read: gone, held under another token, or the row itself.
  unfoldable pub read_owned : Text → ℕ → Jobs P R → Result (Option (JobRecord P R))
  unfolding holds_token
  read_owned id token jobs = elim (find_row id jobs) [
    | none ↦ ok none
    | some r ↦ if holds_token r.columns token then ok (some r) else err (thrown kvdb_queue_error)
  ]

  unfoldable pub complete : ℕ → Option R → JobRecord P R → JobRecord P R
  complete now result r = record r {
    value = record (r.value) { result = result; error = none; stack = none };
    columns = unlocked completed now r.columns;
  }

  -- `{ ...current, error, stack }` with the columns.
  unfoldable pub with_error : Text → Option Text → QueueColumns → JobRecord P R → JobRecord P R
  with_error message stack columns r = record r {
    value = record (r.value) { error = some message; stack = stack };
    columns = columns;
  }

  unfoldable pub dead_letter : ℕ → Text → Option Text → JobRecord P R → JobRecord P R
  unfolding with_error
  dead_letter now message stack r = with_error message stack (unlocked failed now r.columns) r

  unfoldable pub retry_at : ℕ → ℕ → Text → Option Text → JobRecord P R → JobRecord P R
  unfolding with_error
  retry_at now run_at message stack r =
      with_error message stack (record (unlocked delayed now r.columns) { run_at = run_at }) r

  -- `lockExpiresAt` and `updatedAt` alone.
  unfoldable pub extend_lease : ℕ → ℕ → JobRecord P R → JobRecord P R
  extend_lease now expiry r = record r {
    columns = record (r.columns) { lock_expires_at = some expiry; updated_at = now };
  }

module _ (timer : Cron) {P R : Type 0} where
  -- After a write of the row: its error, or the next step.
  wrote :
      Result (JobRecord P R) × Jobs P R
      → Store P R
      → (Store P R → Result Bool × Store P R)
      → Result Bool × Store P R
  wrote (err e, jobs) s next = (err e, s)
  wrote (ok r, jobs) s next = next (record s { jobs = jobs })

  -- What `ack` does with the row that it read; `r` decides only how the job ends.
  unfoldable pub ack_write :
      Config → ℕ → Text → Option R → JobRecord P R → Store P R → Result Bool × Store P R
  unfolding trigger_next_schedule update_row delete_row complete wrote
  ack_write c now id result r s =
      if get_or false r.value.remove_on_complete
      then (let s' = trigger_next_schedule timer c now id s in
          let (gone, jobs) = delete_row id s'.jobs in (ok gone, record s' { jobs = jobs }))
      else wrote (update_row id (complete now result) s.jobs) s
          λ s'. (ok true, trigger_next_schedule timer c now id s')

  unfoldable pub nack_write :
      Config → ℕ → Text → Text → Option Text → JobRecord P R → Store P R → Result Bool × Store P R
  unfolding trigger_next_schedule update_row dead_letter retry_at calculate_backoff wrote
  nack_write c now id message stack r s =
      let backoff = get_or c.default_backoff r.value.backoff in
      let run_at = now + calculate_backoff backoff r.columns.attempts in
      if leb r.columns.max_attempts r.columns.attempts
      then wrote (update_row id (dead_letter now message stack) s.jobs) s
          (λ s'. (ok false, trigger_next_schedule timer c now id s'))
      else wrote (update_row id (retry_at now run_at message stack) s.jobs) s λ s'. (ok true, s')

  -- After the read of `ack` and `nack`.
  settled :
      Result (Option (JobRecord P R))
      → Store P R
      → (JobRecord P R → Store P R → Result Bool × Store P R)
      → Result Bool × Store P R
  settled (err e) s next = (err e, s)
  settled (ok none) s next = (ok false, s)
  settled (ok (some r)) s next = next r s

  unfoldable pub ack : Config → ℕ → Text → ℕ → Option R → Store P R → Result Bool × Store P R
  unfolding settled read_owned ack_write
  ack c now id token result s = settled (read_owned id token s.jobs) s (ack_write c now id result)

  -- `error` is an Error, with its message and stack, or a string, or absent.
  unfoldable pub nack :
      Config → ℕ → Text → ℕ → Option Text → Option Text → Store P R → Result Bool × Store P R
  unfolding settled read_owned nack_write
  nack c now id token message stack s =
      settled (read_owned id token s.jobs) s (nack_write c now id (failure_text message) stack)

  unfoldable pub heartbeat : Config → ℕ → Text → ℕ → Option ℕ → Store P R → Result Bool × Store P R
  unfolding read_owned update_row extend_lease wrote
  heartbeat c now id token extend_ms s =
      let duration = get_or c.default_visibility_timeout_ms extend_ms in
      elim (read_owned id token s.jobs) [
        | err e ↦ (ok false, s)
        | ok none ↦ (ok false, s)
        | ok (some r) ↦
            wrote (update_row id (extend_lease now (now + duration)) s.jobs) s λ s'. (ok true, s')
      ]
