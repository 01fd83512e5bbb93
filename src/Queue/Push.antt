-- ===== src/Queue/Push.antt =====
-- `push` and `pushMany`. `uuid` is the random id that a job without an id gets.
use kvdb_nodejs.Prelude.{
  ℕ, ◌+◌, List, [], ◌∷◌, none, some, Text, text_keys, upsert, get_or, ltb, if◌then◌else◌,
}
use kvdb_nodejs.Queue.Job.{
  Job, waiting, delayed, JobOptions, JobRecord, Jobs, Config, Store, to_job,
}

module _ {P R : Type 0} where
  -- The id and the row of a new job.
  unfoldable pub new_record : Config → ℕ → Text → P → JobOptions → Text × JobRecord P R
  new_record c now uuid payload o =
      let id = get_or uuid o.job_id in
      let delay = get_or 0 o.delay_ms in
      (
        id,
        record {
          value = record {
            id = id;
            payload = payload;
            result = none;
            error = none;
            stack = none;
            backoff = some (get_or c.default_backoff o.backoff);
            remove_on_complete = o.remove_on_complete;
          };
          columns = record {
            state = if ltb 0 delay then delayed else waiting;
            priority = get_or 0 o.priority;
            run_at = now + delay;
            attempts = 0;
            max_attempts = get_or c.default_max_attempts o.max_attempts;
            lock_token = none;
            lock_expires_at = none;
            created_at = now;
            updated_at = now;
          };
        },
      )

  unfoldable pub push : Config → ℕ → Text → P → JobOptions → Store P R → Job P R × Store P R
  unfolding new_record to_job
  push c now uuid payload o s =
      let (id, r) = new_record c now uuid payload o in
      (to_job id r, record s { jobs = upsert id r s.jobs })

  write_all : List (Text × JobRecord P R) → Jobs P R → Jobs P R
  write_all [] jobs = jobs
  write_all ((id, r) ∷ rs) jobs = write_all rs (upsert id r jobs)

  records_of : Config → ℕ → List (Text × P × JobOptions) → List (Text × JobRecord P R)
  records_of c now [] = []
  records_of c now ((uuid, payload, o) ∷ items) =
      new_record c now uuid payload o ∷ records_of c now items

  jobs_of : List (Text × JobRecord P R) → List (Job P R)
  jobs_of [] = []
  jobs_of ((id, r) ∷ rs) = to_job id r ∷ jobs_of rs

  -- Every item comes with its random id.
  unfoldable pub push_many :
      Config → ℕ → List (Text × P × JobOptions) → Store P R → List (Job P R) × Store P R
  unfolding new_record to_job write_all records_of jobs_of
  push_many c now items s =
      let records = records_of c now items in
      (jobs_of records, record s { jobs = write_all records s.jobs })
