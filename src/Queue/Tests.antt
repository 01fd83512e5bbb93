-- ===== src/Queue/Tests.antt =====
-- The queue on concrete inputs.
use kvdb_nodejs.Prelude.{
  ℕ, ◌+◌, ◌≡◌, ◌≢◌, ◌⊎◌, ◌↔◌, inl, refl, true, false, [], ◌∷◌, Option, none, some, Text, arith,
  codes, text_keys, text_beq, find_row, upsert, filter, is_prefix, has_unit, leb,
}
use kvdb_nodejs.Prelude.Decimal.{decimal}
use kvdb_nodejs.Core.Failure.{ok}
use kvdb_nodejs.Queue.Job.{
  JobState, waiting, active, completed, JobOptions, QueueColumns, JobRecord, Jobs, Config, Store,
  Cron, ScheduledJob, queue_config, to_job, update_row, exponential,
}
use kvdb_nodejs.Queue.Pop.{pop, candidates, claim, claim_first, lease_over, is_ready}
use kvdb_nodejs.Queue.Pop.Order.{pop_takes_first, IsTable, NothingReady, IsFirstReady, leased}
use kvdb_nodejs.Queue.Pop.Lease.{pop_exclusive}
use kvdb_nodejs.Queue.Schedule.{
  CronOrInterval, object, schedule, trigger_next_schedule, schedule_job_id, next_run,
  schedule_prefix,
}
use kvdb_nodejs.Queue.Schedule.Recurrence.{Enqueued, schedule_recurs}
use kvdb_nodejs.Queue.Settle.{ack, nack, ack_write, read_owned, calculate_backoff}
use kvdb_nodejs.Queue.Settle.Token.{settle_once}
use kvdb_nodejs.Queue.Settle.Retry.{nack_defers}
use kvdb_nodejs.Queue.Admin.{get_stats, clean, is_old}
use kvdb_nodejs.Queue.Admin.Stats.{get_stats-total}
use kvdb_nodejs.Queue.Admin.Clean.{clean_exact}

abbrev mail : Config
mail = queue_config (codes "mail")

-- A timer for which every expression means the next full second.
abbrev each_second : Cron
each_second = record { next_time = λ t now. ok (now + 1000) }

abbrev plain : JobOptions
plain = record {
  delay_ms = none;
  priority = none;
  max_attempts = none;
  backoff = none;
  job_id = none;
  remove_on_complete = none;
}

abbrev letter : ℕ → QueueColumns → JobRecord ℕ ℕ
letter n columns = record {
  value = record {
    id = codes "a";
    payload = n;
    result = none;
    error = none;
    stack = none;
    backoff = some (exponential 1000);
    remove_on_complete = none;
  };
  columns = columns;
}

abbrev columns_of : JobState → ℕ → ℕ → Option ℕ → Option ℕ → QueueColumns
columns_of state priority attempts lock_token lock_expires_at = record {
  state = state;
  priority = priority;
  run_at = 100;
  attempts = attempts;
  max_attempts = 3;
  lock_token = lock_token;
  lock_expires_at = lock_expires_at;
  created_at = 100;
  updated_at = 100;
}

-- A job held under token 7 until 500, an urgent one that waits, and a finished one.
abbrev held : JobRecord ℕ ℕ
held = letter 1 (columns_of active 5 1 (some 7) (some 500))

abbrev urgent : JobRecord ℕ ℕ
urgent = letter 2 (columns_of waiting 1 0 none none)

abbrev done : JobRecord ℕ ℕ
done = letter 3 (columns_of completed 0 1 none none)

abbrev three_jobs : Jobs ℕ ℕ
three_jobs = (codes "a", held) ∷ (codes "b", urgent) ∷ (codes "c", done) ∷ []

abbrev store : Store ℕ ℕ
store = record { jobs = three_jobs; schedules = [] }

three_jobs-IsTable : IsTable three_jobs
unfolding find_row text_beq
three_jobs-IsTable = (refl, (refl, (refl, tt)))

-- The lease of the first job is over at 600, but the waiting one is more urgent.
pops_urgent : pop mail 600 none 40 store ≡ (
  some (to_job (codes "b") (leased 600 40 30600 urgent)),
  record store { jobs = upsert (codes "b") (leased 600 40 30600 urgent) three_jobs },
)
unfolding pop candidates claim claim_first lease_over find_row text_beq filter is_ready upsert
pops_urgent = refl

pop_takes_first_example :
    (NothingReady 600 three_jobs × (pop mail 600 none 40 store ≡ (none, store)))
    ⊎ ((id : Text) × (r : JobRecord ℕ ℕ) × IsFirstReady 600 three_jobs id r
        × (pop mail 600 none 40 store ≡ (
          some (to_job id (leased 600 40 30600 r)),
          record store { jobs = upsert id (leased 600 40 30600 r) three_jobs },
        )))
pop_takes_first_example = pop_takes_first mail 600 none 40 store three_jobs-IsTable

-- The second worker still holds the old row of the job as a candidate.
pop_exclusive_example :
    (let jobs' = (claim_first 600 1000 40 three_jobs three_jobs).1 in
      (find_row (codes "a") (claim_first 1500 1000 50 three_jobs jobs').1
        ≡ find_row (codes "a") jobs')
      × ((claim_first 1500 1000 50 three_jobs jobs').0 ≡ some (to_job (codes "b") urgent)
          → codes "b" ≢ codes "a"))
unfolding claim_first claim lease_over find_row text_beq to_job
pop_exclusive_example =
    pop_exclusive 600 1000 40 1500 1000 50 three_jobs three_jobs three_jobs
      (to_job (codes "a") (leased 600 40 1600 held)) (to_job (codes "b") urgent) refl (omega arith)

settle_once_example :
    (let s' = (ack each_second mail 300 (codes "a") 7 (some 5) store).1 in
      ((ack each_second mail 310 (codes "a") 7 (some 6) s').0 ≢ ok true)
      × ((ack each_second mail 310 (codes "a") 7 (some 6) s').1 ≡ s')
      × ((nack each_second mail 310 (codes "a") 7 none none s').0 ≢ ok true)
      × ((nack each_second mail 310 (codes "a") 7 none none s').1 ≡ s'))
unfolding ack ack_write read_owned update_row find_row text_beq trigger_next_schedule is_prefix
    schedule_prefix
settle_once_example =
    settle_once each_second mail 300 (codes "a") 7 (some 5) none none store
      (ack each_second mail 300 (codes "a") 7 (some 5) store).1 (inl refl) 310 7 (some 6) none none

nack_defers_example :
    ((nack each_second mail 300 (codes "a") 7 none none store).0 ≡ ok true)
    × ((r' : JobRecord ℕ ℕ) × (find_row
            (codes "a")
            (nack each_second mail 300 (codes "a") 7 none none store).1.jobs
          ≡ some r')
        × ((later : ℕ) → is_ready r'.columns later ≡ leb 1300 later))
unfolding find_row text_beq is_prefix schedule_prefix calculate_backoff
nack_defers_example =
    nack_defers each_second mail 300 (codes "a") 7 none none held store refl refl refl

get_stats-total_example : (get_stats store).total ≡ 3
get_stats-total_example = get_stats-total store

clean_exact_example :
    (n : ℕ) × (jobs' : Jobs ℕ ℕ) × (clean 4 600 (some 400) (some (completed ∷ [])) none store
      ≡ some (n, record store { jobs = jobs' }))
    × ((id : Text) (r : JobRecord ℕ ℕ)
        → (find_row id jobs' ≡ some r)
          ↔ ((find_row id three_jobs ≡ some r) × (is_old (completed ∷ []) 400 600 r ≡ false)))
clean_exact_example = clean_exact (completed ∷ []) 400 600 4 store three_jobs-IsTable (omega arith)

abbrev daily : CronOrInterval
daily = object none (some 5000)

abbrev daily_job : ScheduledJob ℕ
daily_job = record {
  name = codes "d";
  queue = codes "mail";
  cron = none;
  every_ms = some 5000;
  payload = 9;
  options = plain;
  next_run_at = 5100;
  created_at = 100;
}

-- The run of 5100, which a worker has under token 7.
abbrev run_5100 : Text
unfolding schedule_job_id
run_5100 = schedule_job_id (codes "mail") (codes "d") 5100

abbrev running : Store ℕ ℕ
running = record ((schedule each_second mail 100 (codes "d") daily 9 plain store).1) {
  jobs = (run_5100, held) ∷ [];
}

schedule_recurs_example :
    Enqueued mail 6000
      (codes "d")
      daily_job
      11000
      (ack each_second mail 6000 run_5100 7 (some 5) running).1
unfolding schedule next_run has_unit find_row text_beq run_5100 decimal
schedule_recurs_example =
    schedule_recurs each_second mail 100 6000 11000 5100 b'd' [] daily 9 plain daily_job 7 (some 5)
      none none held store running (ack each_second mail 6000 run_5100 7 (some 5) running).1 _ refl
      refl refl refl refl refl refl (omega arith) (omega arith) (λ e. absurd (omega (arith, e)))
      (inl refl)
