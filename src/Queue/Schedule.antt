-- ===== src/Queue/Schedule.antt =====
-- Recurring schedules: `schedule`, `unschedule`, `listScheduled` and `triggerNextSchedule`.
pub mod Trigger
pub mod Recurrence
use kvdb_nodejs.Prelude.{
  split, ℕ, zero, suc, ◌+◌, ◌-◌, Bool, true, false, ◌||◌, List, [], ◌∷◌, ◌++◌, Option, none, some,
  Text, codes, text_keys, text_beq, find_row, upsert, remove, is_some, is_prefix, get_or, ltb, eqb,
  filter, map, if◌then◌else◌,
}
use kvdb_nodejs.Prelude.Decimal.{decimal}
use kvdb_nodejs.Core.Failure.{Result, ok, err, thrown, kvdb_config_error, ◌>>=◌}
use kvdb_nodejs.Queue.Job.{Job, JobOptions, Config, Store, Cron, ScheduledJob}
use kvdb_nodejs.Queue.Push.{push}

-- A place in a list, where `undefined` is none.
unfoldable pub get_elem? {ℓ} : {A : Type ℓ} → List A → ℕ → Option A
get_elem? [] n = none
get_elem? (x ∷ xs) zero = some x
get_elem? (x ∷ xs) (suc n) = get_elem? xs n

-- `cronOrInterval`: an expression, or an object with either field.
pub data CronOrInterval : Type 0 where
  expression : Text → CronOrInterval
  object : Option Text → Option ℕ → CronOrInterval

-- The strings and numbers that count as true.
truthy_text : Option Text → Option Text
truthy_text none = none
truthy_text (some []) = none
truthy_text (some (x ∷ t)) = some (x ∷ t)

truthy_number : Option ℕ → Option ℕ
truthy_number none = none
truthy_number (some zero) = none
truthy_number (some (suc n)) = some (suc n)

cron_of : CronOrInterval → Option Text
cron_of (expression t) = some t
cron_of (object cron every) = cron

every_of : CronOrInterval → Option ℕ
every_of (expression t) = none
every_of (object cron every) = every

-- `name:schedule`, the key of a schedule.
unfoldable pub schedule_key : Text → Text → Text
schedule_key queue name = queue ++ b':' ∷ name

unfoldable pub schedule_prefix : Text → Text
schedule_prefix queue = codes "sched:" ++ queue ++ b':' ∷ []

-- `sched:queue:name:time`
unfoldable pub schedule_job_id : Text → Text → ℕ → Text
unfolding schedule_prefix
schedule_job_id queue name time = schedule_prefix queue ++ name ++ b':' ∷ decimal time

module _ (timer : Cron) where
  -- The next run, or none where the schedule has neither an expression nor an interval.
  unfoldable pub next_run : Option Text → Option ℕ → ℕ → Option (Result ℕ)
  unfolding truthy_text truthy_number
  next_run cron every now = elim (truthy_text cron) [
    | some t ↦ some (timer.next_time t now)
    | none ↦ elim (truthy_number every) [ none ↦ none | some n ↦ some (ok (now + n)) ]
  ]

module _ {P R : Type 0} where
  unfoldable pub enqueue_run : Config → ℕ → Text → P → JobOptions → ℕ → Store P R → Store P R
  unfolding push schedule_job_id
  enqueue_run c now name payload options time s =
      (push c now [] payload
        (record options {
          job_id = some (schedule_job_id c.name name time);
          delay_ms = some (time - now);
        })
        s).1

  schedule_at :
      Config
      → ℕ
      → Text
      → CronOrInterval
      → P
      → JobOptions
      → ℕ
      → Store P R
      → ScheduledJob P × Store P R
  unfolding enqueue_run schedule_key cron_of every_of
  schedule_at c now name when payload options time s =
      let scheduled : ScheduledJob P = record {
        name = name;
        queue = c.name;
        cron = cron_of when;
        every_ms = every_of when;
        payload = payload;
        options = options;
        next_run_at = time;
        created_at = now;
      } in
      (
        scheduled,
        enqueue_run c now name payload options time
            (record s { schedules = upsert (schedule_key c.name name) scheduled s.schedules }),
      )

module _ (timer : Cron) {P R : Type 0} where
  unfoldable pub schedule :
      Config
      → ℕ
      → Text
      → CronOrInterval
      → P
      → JobOptions
      → Store P R
      → Result (ScheduledJob P) × Store P R
  unfolding schedule_at next_run cron_of every_of
  schedule c now name when payload options s =
      elim (next_run timer (cron_of when) (every_of when) now) [
        | none ↦ (err (thrown kvdb_config_error), s)
        | some (err e) ↦ (err e, s)
        | some (ok time) ↦
            let (scheduled, s') = schedule_at c now name when payload options time s in
            (ok scheduled, s')
      ]

  -- The body of the `try`.
  unfoldable pub trigger_named : Config → ℕ → Text → Store P R → Store P R
  unfolding enqueue_run schedule_key next_run
  trigger_named c now name s = elim (find_row (schedule_key c.name name) s.schedules) [
    | none ↦ s
    | some sched ↦ elim (next_run timer sched.cron sched.every_ms now) [
      | none ↦ s
      | some (err e) ↦ s
      | some (ok time) ↦
          if ltb 0 time then enqueue_run c now name sched.payload sched.options time s else s
    ]
  ]

  trigger_part : Config → ℕ → Option Text → Store P R → Store P R
  unfolding trigger_named
  trigger_part c now none s = s
  trigger_part c now (some []) s = s
  trigger_part c now (some (x ∷ name)) s = trigger_named c now (x ∷ name) s

  unfoldable pub trigger_next_schedule : Config → ℕ → Text → Store P R → Store P R
  unfolding trigger_part split get_elem? schedule_prefix
  trigger_next_schedule c now job_id s =
      if is_prefix (schedule_prefix c.name) job_id
      then trigger_part c now (get_elem? (split b':' job_id) 2) s
      else s

module _ {P R : Type 0} where
  unfoldable pub unschedule : Config → Text → Store P R → Bool × Store P R
  unfolding schedule_key
  unschedule c name s =
      let key = schedule_key c.name name in
      (is_some (find_row key s.schedules), record s { schedules = remove key s.schedules })

  unfoldable pub list_scheduled : Config → Store P R → List (ScheduledJob P)
  list_scheduled c s =
      filter (λ (sched : ScheduledJob P). text_beq sched.queue c.name)
        (map (λ (row : Text × ScheduledJob P). row.1) s.schedules)
