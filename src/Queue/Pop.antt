-- ===== src/Queue/Pop.antt =====
-- `pop`: the query for candidates, and the claim of the first one that is still claimable.
pub mod Order
pub mod Lease
use kvdb_nodejs.Prelude.{
  ℕ, suc, ◌+◌, Bool, true, false, ◌&&◌, ◌||◌, List, [], ◌∷◌, Option, none, some, Text, text_keys,
  find_row, upsert, filter, take, get_or, ltb, leb, eqb, if◌then◌else◌,
}
use kvdb_nodejs.Core.Failure.{Result, ok, err, plain_error}
use kvdb_nodejs.Queue.Job.{
  Job, JobState, waiting, active, delayed, completed, failed, QueueColumns, JobRecord, Jobs, Config,
  Store, to_job,
}

-- `lockExpiresAt <= now`, where it is a number.
unfoldable pub lease_over : QueueColumns → ℕ → Bool
lease_over c now = elim c.lock_expires_at [ none ↦ false | some t ↦ leb t now ]

-- The `where` of the query: ready, or active with a lease that is over.
ready_in : JobState → QueueColumns → ℕ → Bool
ready_in waiting c now = leb c.run_at now
ready_in delayed c now = leb c.run_at now
ready_in active c now = lease_over c now
ready_in completed c now = false
ready_in failed c now = false

unfoldable pub is_ready : QueueColumns → ℕ → Bool
unfolding ready_in lease_over
is_ready c now = ready_in c.state c now

-- Sorted before: by priority, then `runAt`, then `createdAt`, all ascending.
unfoldable pub sorts_before : QueueColumns → QueueColumns → Bool
sorts_before a b =
    if ltb a.priority b.priority
    then true
    else if ltb b.priority a.priority
    then false
    else if ltb a.run_at b.run_at
    then true
    else if ltb b.run_at a.run_at
    then false
    else leb a.created_at b.created_at

-- The test under the row lock.
claimable_in : JobState → QueueColumns → ℕ → Bool
claimable_in waiting c now = true
claimable_in delayed c now = true
claimable_in active c now = lease_over c now
claimable_in completed c now = false
claimable_in failed c now = false

module _ {P R : Type 0} where
  insert_row : Text × JobRecord P R → Jobs P R → Jobs P R
  insert_row row [] = row ∷ []
  insert_row row (x ∷ rows) =
      let later = insert_row row rows in
      if sorts_before row.1.columns x.1.columns then row ∷ x ∷ rows else x ∷ later

  sort_rows : Jobs P R → Jobs P R
  sort_rows [] = []
  sort_rows (row ∷ rows) = insert_row row (sort_rows rows)

  -- Rows that sort alike stay in table order.
  unfoldable pub candidates : ℕ → Jobs P R → Jobs P R
  unfolding insert_row sort_rows is_ready sorts_before
  candidates now jobs = take 10 (sort_rows (filter (λ row. is_ready row.1.columns now) jobs))

  unfoldable pub claim : ℕ → ℕ → ℕ → Option (JobRecord P R) → Result (JobRecord P R)
  unfolding claimable_in lease_over
  claim now lock_token lock_expires_at none = err (plain_error "Job not found")
  claim now lock_token lock_expires_at (some r) =
      if claimable_in r.columns.state r.columns now
      then ok (record r {
        columns = record (r.columns) {
          state = active;
          lock_token = some lock_token;
          lock_expires_at = some lock_expires_at;
          attempts = r.columns.attempts + 1;
          updated_at = now;
        };
      })
      else err (plain_error "Job already claimed by another worker")

  claimed :
      Text
      → Jobs P R
      → Option (Job P R) × Jobs P R
      → Result (JobRecord P R)
      → Option (Job P R) × Jobs P R
  claimed id jobs rest (ok r) = (some (to_job id r), upsert id r jobs)
  claimed id jobs rest (err e) = rest

  -- The loop over the candidates, which may be older than the rows; each round has a new token.
  unfoldable pub claim_first : ℕ → ℕ → ℕ → Jobs P R → Jobs P R → Option (Job P R) × Jobs P R
  unfolding claimed claim to_job
  claim_first now visibility_ms uuid [] jobs = (none, jobs)
  claim_first now visibility_ms uuid ((id, _) ∷ cs) jobs =
      let rest = claim_first now visibility_ms (suc uuid) cs jobs in
      claimed id jobs rest (claim now uuid (now + visibility_ms) (find_row id jobs))

  -- With no other worker between the query and the claims.
  unfoldable pub pop : Config → ℕ → Option ℕ → ℕ → Store P R → Option (Job P R) × Store P R
  unfolding candidates claim_first
  pop c now visibility_timeout_ms uuid s =
      let visibility_ms = get_or c.default_visibility_timeout_ms visibility_timeout_ms in
      let (job, jobs) = claim_first now visibility_ms uuid (candidates now s.jobs) s.jobs in
      (job, record s { jobs = jobs })
