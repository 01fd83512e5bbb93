-- ===== src/Queue/Job.antt =====
-- The rows of the job table, the queue's configuration and state, and `toJob`. Payloads and results
-- are any types; a lock token stands for a `randomUUID()`.
use kvdb_nodejs.Prelude.{
  ℕ, ◌≡◌, refl, Bool, List, Option, none, some, Text, text_keys, find_row, upsert, remove, is_some,
}
use kvdb_nodejs.Core.Failure.{Result, ok, err, kvdb_error, query}

pub data JobState : Type 0 where
  waiting active delayed completed failed : JobState

pub data BackoffOptions : Type 0 where
  fixed exponential : ℕ → BackoffOptions

pub record JobOptions : Type 0 where
  pub delay_ms : Option ℕ
  pub priority : Option ℕ
  pub max_attempts : Option ℕ
  pub backoff : Option BackoffOptions
  pub job_id : Option Text
  pub remove_on_complete : Option Bool

pub record JobData (P R : Type 0) : Type 0 where
  pub id : Text
  pub payload : P
  pub result : Option R
  pub error : Option Text
  pub stack : Option Text
  pub backoff : Option BackoffOptions
  pub remove_on_complete : Option Bool

pub record QueueColumns : Type 0 where
  pub state : JobState
  pub priority : ℕ
  pub run_at : ℕ
  pub attempts : ℕ
  pub max_attempts : ℕ
  pub lock_token : Option ℕ
  pub lock_expires_at : Option ℕ
  pub created_at : ℕ
  pub updated_at : ℕ

-- A row of the job table, under its id.
pub record JobRecord (P R : Type 0) : Type 0 where
  pub value : JobData P R
  pub columns : QueueColumns

abbrev pub Jobs : Type 0 → Type 0 → Type 0
Jobs P R = List (Text × JobRecord P R)

pub record Job (P R : Type 0) : Type 0 where
  pub id : Text
  pub columns : QueueColumns
  pub payload : P
  pub result : Option R
  pub error : Option Text

-- The job table writes every column, so none of the defaults of `toJob` applies.
unfoldable pub to_job : {P R : Type 0} → Text → JobRecord P R → Job P R
to_job key r = record {
  id = key;
  columns = r.columns;
  payload = r.value.payload;
  result = r.value.result;
  error = r.value.error;
}

-- A registered schedule; `cron` and `every_ms` are absent or given.
pub record ScheduledJob (P : Type 0) : Type 0 where
  pub name : Text
  pub queue : Text
  pub cron : Option Text
  pub every_ms : Option ℕ
  pub payload : P
  pub options : JobOptions
  pub next_run_at : ℕ
  pub created_at : ℕ

pub record Config : Type 0 where
  pub name : Text
  pub default_visibility_timeout_ms : ℕ
  pub default_max_attempts : ℕ
  pub default_backoff : BackoffOptions

abbrev pub queue_config : Text → Config
queue_config name = record {
  name = name;
  default_visibility_timeout_ms = 30000;
  default_max_attempts = 3;
  default_backoff = exponential 1000;
}

-- The two tables that a queue writes.
pub record Store (P R : Type 0) : Type 0 where
  pub jobs : Jobs P R
  pub schedules : List (Text × ScheduledJob P)

-- `getNextCronTime` of src/schedule/cron-parser.ts, which throws on a bad expression.
pub record Cron : Type 0 where
  pub next_time : Text → ℕ → Result ℕ

module _ {P R : Type 0} where
  -- `table.update` with keys, on a row that is there, and its error on one that is not.
  unfoldable pub update_row :
      Text → (JobRecord P R → JobRecord P R) → Jobs P R → Result (JobRecord P R) × Jobs P R
  update_row id change jobs = elim (find_row id jobs) [
    | none ↦ (err (kvdb_error query), jobs)
    | some r ↦ (ok (change r), upsert id (change r) jobs)
  ]

  pub update_row-found :
      (id : Text) (change : JobRecord P R → JobRecord P R) (r : JobRecord P R) (jobs : Jobs P R)
      → find_row id jobs ≡ some r
      → update_row id change jobs ≡ (ok (change r), upsert id (change r) jobs)
  unfolding update_row
  update_row-found id change r jobs e = rw (update_row, e) refl

  -- `table.delete`
  unfoldable pub delete_row : Text → Jobs P R → Bool × Jobs P R
  delete_row id jobs = (is_some (find_row id jobs), remove id jobs)
