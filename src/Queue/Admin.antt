-- ===== src/Queue/Admin.antt =====
-- `getJob`, `getStats`, `retryFailed` and `clean`. A query reads rows in table order.
pub mod Clean
pub mod Stats
use kvdb_nodejs.Prelude.{
  ℕ, zero, suc, ◌+◌, Bool, true, false, ◌&&◌, List, [], ◌∷◌, Option, none, some, Text, text_keys,
  find_row, get_or, is_some, leb, ltb, eqb, length, take, filter, if◌then◌else◌, map,
}
use kvdb_nodejs.Core.Failure.{Result, ok, err, ◌>>=◌}
use kvdb_nodejs.Queue.Job.{
  Job, to_job, JobState, waiting, active, delayed, completed, failed, JobData, QueueColumns,
  JobRecord, Jobs, Config, Store, update_row, delete_row,
}

-- The place of a state in the list of `getStats`.
unfoldable pub place : JobState → ℕ
place waiting = 0
place active = 1
place delayed = 2
place completed = 3
place failed = 4

unfoldable pub same_state : JobState → JobState → Bool
unfolding place
same_state a b = eqb (place a) (place b)

-- `$in`
unfoldable pub state_in : JobState → List JobState → Bool
unfolding same_state
state_in a [] = false
state_in a (b ∷ states) = let rest = state_in a states in if same_state a b then true else rest

pub record QueueStats : Type 0 where
  pub waiting_jobs : ℕ
  pub active_jobs : ℕ
  pub delayed_jobs : ℕ
  pub completed_jobs : ℕ
  pub failed_jobs : ℕ
  pub total : ℕ

module _ {P R : Type 0} where
  unfoldable pub get_job : Text → Store P R → Option (Job P R)
  unfolding to_job
  get_job id s = elim (find_row id s.jobs) [ none ↦ none | some r ↦ some (to_job id r) ]

  unfoldable pub in_state : JobState → Jobs P R → Jobs P R
  unfolding same_state
  in_state state jobs = filter (λ row. same_state row.1.columns.state state) jobs

  unfoldable pub get_stats : Store P R → QueueStats
  unfolding in_state
  get_stats s =
      let count = λ (state : JobState). length (in_state state s.jobs) in
      record {
        waiting_jobs = count waiting;
        active_jobs = count active;
        delayed_jobs = count delayed;
        completed_jobs = count completed;
        failed_jobs = count failed;
        total = count waiting + count active + count delayed + count completed + count failed;
      }

  unfoldable pub requeue : ℕ → JobRecord P R → JobRecord P R
  requeue now r = record r {
    value = record (r.value) { error = none; stack = none };
    columns = record (r.columns) { state = waiting; run_at = now; attempts = 0; updated_at = now };
  }

  -- The loop over the failed records; an error ends it.
  requeue_all : ℕ → ℕ → Jobs P R → Jobs P R → Result ℕ × Jobs P R
  unfolding update_row requeue
  requeue_all now count [] jobs = (ok count, jobs)
  requeue_all now count ((id, r) ∷ rows) jobs =
      let (written, jobs') = update_row id (requeue now) jobs in
      let rest = requeue_all now count rows jobs' in
      elim written [ err e ↦ (err e, jobs') | ok r' ↦ rest ]

  retry_one : ℕ → Text → Jobs P R → Option (JobRecord P R) → Result ℕ × Jobs P R
  unfolding update_row requeue same_state
  retry_one now id jobs none = (ok 0, jobs)
  retry_one now id jobs (some r) =
      let (written, jobs') = update_row id (requeue now) jobs in
      let count = written >>= λ _. ok 1 in
      if same_state r.columns.state failed then (count, jobs') else (ok 0, jobs)

  -- `jobId`, where it is not empty.
  retried : ℕ → Option Text → Option ℕ → Jobs P R → Result ℕ × Jobs P R
  unfolding in_state requeue_all retry_one
  retried now (some (x ∷ id)) limit jobs = retry_one now (x ∷ id) jobs (find_row (x ∷ id) jobs)
  retried now _ limit jobs =
      let rows = take (get_or 500 limit) (in_state failed jobs) in
      requeue_all now (length rows) rows jobs

  -- Without a job id, at most `limit` failed jobs.
  unfoldable pub retry_failed : ℕ → Option Text → Option ℕ → Store P R → Result ℕ × Store P R
  unfolding retried
  retry_failed now job_id limit s =
      let (count, jobs) = retried now job_id limit s.jobs in (count, record s { jobs = jobs })

  -- The `where` of `clean`; `updatedAt <= now - olderThanMs` without a negative cutoff.
  unfoldable pub is_old : List JobState → ℕ → ℕ → JobRecord P R → Bool
  unfolding state_in
  is_old states older now r =
      state_in r.columns.state states && leb (r.columns.updated_at + older) now

  unfoldable pub old_rows : List JobState → ℕ → ℕ → Jobs P R → Jobs P R
  unfolding is_old
  old_rows states older now jobs = filter (λ row. is_old states older now row.1) jobs

  -- `deleteMany`
  unfoldable pub delete_rows : Jobs P R → Jobs P R → ℕ × Jobs P R
  unfolding delete_row
  delete_rows [] jobs = (0, jobs)
  delete_rows ((id, r) ∷ rows) jobs =
      let (gone, rest) = delete_row id jobs in
      let (count, after) = delete_rows rows rest in (if gone then suc count else count, after)

  -- The `while (true)`, for at most `fuel` rounds; none where they do not suffice.
  unfoldable pub clean_loop :
      ℕ → List JobState → ℕ → ℕ → Option ℕ → ℕ → Jobs P R → Option (ℕ × Jobs P R)
  unfolding old_rows delete_rows
  clean_loop zero states older now limit total jobs = none
  clean_loop (suc fuel) states older now limit total jobs =
      let batch_limit = get_or 1000 limit in
      let batch = take batch_limit (old_rows states older now jobs) in
      let (deleted, jobs') = delete_rows batch jobs in
      let rest = clean_loop fuel states older now limit (total + deleted) jobs' in
      if eqb (length batch) 0
      then some (total, jobs)
      else if ltb (length batch) batch_limit
      then some (total + deleted, jobs')
      else if is_some limit
      then some (total + deleted, jobs')
      else rest

  unfoldable pub clean :
      ℕ → ℕ → Option ℕ → Option (List JobState) → Option ℕ → Store P R → Option (ℕ × Store P R)
  unfolding clean_loop
  clean fuel now older states limit s =
      elim (clean_loop fuel (get_or (completed ∷ failed ∷ []) states) (get_or 86400000 older) now
        limit 0 s.jobs) [
          | none ↦ none
          | some (total, jobs) ↦ some (total, record s { jobs = jobs })
        ]
