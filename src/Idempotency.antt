-- ===== src/Idempotency.antt =====
-- src/idempotency/idempotent.ts: calls that run once per key. The clock readings inside one call of
-- the table are one reading; what the claim sees is what the table holds when its update runs.
pub mod Claim
pub mod Contended
mod Tests
use kvdb_nodejs.Prelude.{
  ℕ, zero, suc, ◌+◌, ◌-◌, ◌≡◌, min, Bool, true, false, List, [], ◌∷◌, Option, none, some, Text,
  get_or, ltb, leb, if◌then◌else◌,
}
use kvdb_nodejs.Core.Failure.{Failure, Result, ok, err}
use kvdb_nodejs.Core.Key.{KeyScope}
use kvdb_nodejs.Drivers.Sqlite.{Rows}
use kvdb_nodejs.Table
use kvdb_nodejs.Table.{Patch, UpdateOptions}

-- `result` and `error` stand with the status that sets them.
pub data IdempotencyStatus (R : Type 0) : Type 0 where
  pending : IdempotencyStatus R
  resolved : R → IdempotencyStatus R
  rejected : Text → IdempotencyStatus R

pub record IdempotencyRecord (R : Type 0) : Type 0 where
  pub status : IdempotencyStatus R
  pub created_at : ℕ

pub record IdempotentOptions : Type 0 where
  pub ttl_ms : Option ℕ
  pub timeout_ms : Option ℕ
  pub retry_interval_ms : Option ℕ

abbrev pub ttl_of : IdempotentOptions → ℕ
ttl_of o = get_or 86400000 o.ttl_ms

abbrev pub timeout_of : IdempotentOptions → ℕ
timeout_of o = get_or 10000 o.timeout_ms

abbrev pub retry_of : IdempotentOptions → ℕ
retry_of o = get_or 100 o.retry_interval_ms

-- What `fn` does: it returns, or it throws, with the message of the error.
pub data FnOutcome (R : Type 0) : Type 0 where
  returned : R → FnOutcome R
  failed : Failure → Text → FnOutcome R

module _ {R : Type 0} where
  abbrev pub pending_at : ℕ → IdempotencyRecord R
  pending_at now = record { status = pending; created_at = now }

  -- A free key, a failed call, or a call that has been pending for longer than the timeout.
  unfoldable pub is_claimable : ℕ → ℕ → Option (IdempotencyRecord R) → Bool
  is_claimable timeout now none = true
  is_claimable timeout now (some curr) = elim curr.status [
    | pending ↦ ltb timeout (now - curr.created_at)
    | resolved result ↦ false
    | rejected message ↦ true
  ]

  -- The mutator of the claim.
  unfoldable pub claim : ℕ → ℕ → Patch (IdempotencyRecord R)
  claim timeout now none = ok (pending_at now)
  claim timeout now (some curr) =
      ok (if is_claimable timeout now (some curr) then pending_at now else curr)

  -- What the mutator is called with; it is not called where the table refuses the key.
  abbrev pub seen_by_claim :
      Result (Option (IdempotencyRecord R)) → Option (Option (IdempotencyRecord R))
  seen_by_claim (ok curr) = some curr
  seen_by_claim (err e) = none

  abbrev pub claims_on : ℕ → ℕ → Option (Option (IdempotencyRecord R)) → Bool
  claims_on timeout now none = false
  claims_on timeout now (some curr) = is_claimable timeout now curr

  -- `existingRecord`
  abbrev pub existing_on :
      ℕ → ℕ → Option (Option (IdempotencyRecord R)) → Option (IdempotencyRecord R)
  existing_on timeout now none = none
  existing_on timeout now (some curr) = if is_claimable timeout now curr then none else curr

  -- The second step of a round: `isClaimer`, `existingRecord` and the rows.
  unfoldable pub try_claim :
      KeyScope
      → Text
      → IdempotentOptions
      → ℕ
      → Rows (IdempotencyRecord R)
      → Bool × Option (IdempotencyRecord R) × Rows (IdempotencyRecord R)
  unfolding claim
  try_claim scope key o now rows =
      let seen = seen_by_claim (Table.get scope now key rows).0 in
      let (r, rows') =
        Table.update scope now key (claim (timeout_of o) now)
          (record { upsert = true; default = none; ttl_ms = some (ttl_of o) }) rows in
      (claims_on (timeout_of o) now seen, existing_on (timeout_of o) now seen, rows')

  abbrev pub resolved_with : R → ℕ → IdempotencyRecord R
  resolved_with result now = record { status = resolved result; created_at = now }

  abbrev pub rejected_with : Text → ℕ → IdempotencyRecord R
  rejected_with message now = record { status = rejected message; created_at = now }

  -- The record is marked as rejected for ten seconds, if it can be.
  unfoldable pub reject :
      KeyScope → Text → Text → ℕ → Rows (IdempotencyRecord R) → Rows (IdempotencyRecord R)
  reject scope key message now rows =
      (Table.update scope now key (λ curr. ok (rejected_with message now))
        (record { upsert = false; default = none; ttl_ms = some 10000 }) rows).1

  abbrev pub settled :
      R
      → (Failure → Rows (IdempotencyRecord R))
      → Rows (IdempotencyRecord R)
      → Result (IdempotencyRecord R)
      → Result R × Rows (IdempotencyRecord R)
  settled result after_error rows (ok written) = (ok result, rows)
  settled result after_error rows (err e) = (err e, after_error e)

  -- What the claimer does with the outcome of `fn`. `message` is that of an error of the update.
  unfoldable pub settle :
      KeyScope
      → Text
      → IdempotentOptions
      → FnOutcome R
      → (Failure → Text)
      → ℕ
      → Rows (IdempotencyRecord R)
      → Result R × Rows (IdempotencyRecord R)
  unfolding reject
  settle scope key o (failed e message) message_of now rows =
      (err e, reject scope key message now rows)
  settle scope key o (returned result) message_of now rows =
      let (r, rows') =
        Table.update scope now key (λ curr. ok (resolved_with result now))
          (record { upsert = false; default = none; ttl_ms = some (ttl_of o) }) rows in
      settled result (λ e. reject scope key (message_of e) now rows') rows' r

  -- `rec?.status === "resolved"`, with the result.
  unfoldable pub resolved_result : Option (IdempotencyRecord R) → Option R
  resolved_result none = none
  resolved_result (some rec) = elim rec.status [
    | pending ↦ none
    | resolved result ↦ some result
    | rejected message ↦ none
  ]

  -- `!rec || rec.status === "rejected"`
  unfoldable pub is_open : Option (IdempotencyRecord R) → Bool
  is_open none = true
  is_open (some rec) = elim rec.status [
    | pending ↦ false
    | resolved result ↦ false
    | rejected message ↦ true
  ]

  -- The record that a read finds; a read that throws ends the call.
  unfoldable pub read_record :
      KeyScope → Text → ℕ → Rows (IdempotencyRecord R) → Result (Option (IdempotencyRecord R))
  read_record scope key now rows = (Table.get scope now key rows).0

-- What a round finds at once: the answer, an error of the table, the right to run `fn`, or neither.
pub data RoundStart (R : Type 0) : Type 0 where
  answered : R → RoundStart R
  broken : Failure → RoundStart R
  claimed : Rows (IdempotencyRecord R) → RoundStart R
  must_wait : RoundStart R

-- What one look of the poll loop meets: the clock of its condition, and the clock and rows of its read.
pub record Poll (R : Type 0) : Type 0 where
  pub checked_at : ℕ
  pub read_at : ℕ
  pub rows : Rows (IdempotencyRecord R)

-- What a round meets: at its read, at its claim, in its poll loop, and the clock at its end.
pub record Round (R : Type 0) : Type 0 where
  pub read_at : ℕ
  pub read_rows : Rows (IdempotencyRecord R)
  pub claim_at : ℕ
  pub claim_rows : Rows (IdempotencyRecord R)
  pub polls : List (Poll R)
  pub ended_at : ℕ

-- How the poll loop ends: with an answer, an error, a record that is open again, or at the timeout.
-- `polling` and `waiting` are the loops that still run when the given looks or rounds are over.
pub data PollEnd (R : Type 0) : Type 0 where
  answered : R → PollEnd R
  broken : Failure → PollEnd R
  reopened timed_out polling : PollEnd R

pub data Outcome (R : Type 0) : Type 0 where
  answered : R → Outcome R
  broken : Failure → Outcome R
  runs : Rows (IdempotencyRecord R) → Outcome R
  timed_out waiting : Outcome R

module _ {R : Type 0} where
  abbrev pub after_claim :
      Bool → Option (IdempotencyRecord R) → Rows (IdempotencyRecord R) → RoundStart R
  after_claim true existing rows = claimed rows
  after_claim false existing rows = elim (resolved_result existing) [
    | some result ↦ answered result
    | none ↦ must_wait
  ]

  abbrev pub start_with : Result (Option (IdempotencyRecord R)) → RoundStart R → RoundStart R
  start_with (err e) otherwise = broken e
  start_with (ok cached) otherwise = elim (resolved_result cached) [
    | some result ↦ answered result
    | none ↦ otherwise
  ]

  unfoldable pub begin_round : KeyScope → Text → IdempotentOptions → Round R → RoundStart R
  begin_round scope key o r =
      let (claimer, existing, rows') = try_claim scope key o r.claim_at r.claim_rows in
      start_with (read_record scope key r.read_at r.read_rows) (after_claim claimer existing rows')

  abbrev pub looked : Result (Option (IdempotencyRecord R)) → PollEnd R → PollEnd R
  looked (err e) more = broken e
  looked (ok rec) more = elim (resolved_result rec) [
    | some result ↦ answered result
    | none ↦ if is_open rec then reopened else more
  ]

  -- The poll loop.
  unfoldable pub poll_record : KeyScope → Text → IdempotentOptions → ℕ → List (Poll R) → PollEnd R
  poll_record scope key o start [] = polling
  poll_record scope key o start (p ∷ polls) =
      let more = poll_record scope key o start polls in
      if ltb (p.checked_at - start) (timeout_of o)
      then looked (read_record scope key p.read_at p.rows) more
      else timed_out

  abbrev pub after_polls : IdempotentOptions → ℕ → ℕ → PollEnd R → Outcome R → Outcome R
  after_polls o start ended (answered result) more = answered result
  after_polls o start ended (broken e) more = broken e
  after_polls o start ended polling more = waiting
  after_polls o start ended reopened more =
      if leb (timeout_of o) (ended - start) then timed_out else more
  after_polls o start ended timed_out more =
      if leb (timeout_of o) (ended - start) then timed_out else more

  abbrev pub after_start : RoundStart R → Outcome R → Outcome R
  after_start (answered result) otherwise = answered result
  after_start (broken e) otherwise = broken e
  after_start (claimed rows) otherwise = runs rows
  after_start must_wait otherwise = otherwise

  -- `idempotent` up to the run of `fn`, which `settle` follows.
  unfoldable pub idempotent : KeyScope → Text → IdempotentOptions → ℕ → List (Round R) → Outcome R
  unfolding begin_round poll_record
  idempotent scope key o start [] = waiting
  idempotent scope key o start (r ∷ rounds) =
      let more = idempotent scope key o start rounds in
      after_start (begin_round scope key o r)
        (after_polls o start r.ended_at (poll_record scope key o start r.polls) more)
