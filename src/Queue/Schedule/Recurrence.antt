-- ===== src/Queue/Schedule/Recurrence.antt =====
-- Which job follows a finished job of a schedule.
use kvdb_nodejs.Prelude.{
  ltb_yes, Bool, ltb, leb, get_or, Option, true, if◌then◌else◌, drop, append-left_cancel, remove,
  find_row-remove, ==_of_ne, Bool-cases, ◌≢◌, ◌⊎◌, ℕ, ◌-◌, ◌<◌, ◌≤◌, ◌≡◌, refl, sym, ◌∙◌, inl, inr,
  ap, false, [], ◌∷◌, ◌++◌, none, some, Text, arith, text_keys, find_row, find_row-upsert,
  is_prefix-append, has_unit, ==_self, Option-cases,
}
use mathlib.Core.List.{append_assoc}
use mathlib.Core.Path.{subst}
use kvdb_nodejs.Prelude.Decimal.{decimal, decimal_injective}
use kvdb_nodejs.Core.Failure.{Result, ok, err, Failure, Result-cases}
use kvdb_nodejs.Queue.Job.{
  delayed, waiting, update_row-found, delete_row, JobOptions, Config, Store, Cron, ScheduledJob,
  JobRecord,
}
use kvdb_nodejs.Queue.Settle.{ack, nack, ack_write, nack_write, complete, dead_letter, failure_text}
use kvdb_nodejs.Queue.Settle.Retry.{read_owned-own}
use kvdb_nodejs.Queue.Push.{push, new_record}
use kvdb_nodejs.Queue.Schedule.{
  trigger_next_schedule, trigger_named, enqueue_run, next_run, schedule_prefix, schedule_key,
  schedule_job_id, schedule, schedule_at, CronOrInterval, cron_of, every_of,
}
use kvdb_nodejs.Queue.Schedule.Trigger.{schedule_prefix-parts}

err_ne_ok : {A : Type 0} {x : Failure} {a : A} → err x ≡ ok a → ⊥
err_ne_ok e = cc

ok_injective : {A : Type 0} {a b : A} → ok a ≡ ok b → a ≡ b
ok_injective e = cc

colon_id :
    (p a more t : Text) → p ++ (a ++ b':' ∷ more) ++ b':' ∷ t ≡ p ++ a ++ b':' ∷ (more ++ b':' ∷ t)
colon_id p a more t =
    ap (λ u. u ++ b':' ∷ t) (sym (append_assoc p a (b':' ∷ more)))
    ∙ append_assoc (p ++ a) (b':' ∷ more) (b':' ∷ t)

module _ {P R : Type 0} (c : Config) where
  -- The row of the schedule's run at `time` is there, with its payload, and waits for its time.
  abbrev pub Enqueued : ℕ → Text → ScheduledJob P → ℕ → Store P R → Type 0
  Enqueued now name sched time s =
      (r : JobRecord P R) × (find_row (schedule_job_id c.name name time) s.jobs ≡ some r)
      × (r.columns.run_at ≡ time)
      × (r.columns.state ≡ (if ltb 0 (time - now) then delayed else waiting))
      × (r.columns.lock_token ≡ none)
      × (r.value.payload ≡ sched.payload)

  enqueue_run-Enqueued :
      (now : ℕ) (name : Text) (sched : ScheduledJob P) (time : ℕ) (s : Store P R)
      → now ≤ time
      → Enqueued now name sched time (enqueue_run c now name sched.payload sched.options time s)
  unfolding push new_record enqueue_run find_row schedule_job_id
  enqueue_run-Enqueued now name sched time s h =
      let id = schedule_job_id c.name name time in
      let o = record (sched.options) { job_id = some id; delay_ms = some (time - now) } in
      let (k, r) = new_record c now [] sched.payload o in
      (r, rw (find_row-upsert id id r s.jobs, ==_self id) refl, omega (arith, h), refl, refl, refl)

  Enqueued-remove :
      (now : ℕ) (name : Text) (sched : ScheduledJob P) (time : ℕ) (id : Text) (s : Store P R)
      → id ≢ schedule_job_id c.name name time
      → Enqueued now name sched time s
      → Enqueued now name sched time (record s { jobs = remove id s.jobs })
  unfolding schedule_job_id
  Enqueued-remove now name sched time id s other (r, found, at_time, state, free, same) =
      let next = schedule_job_id c.name name time in
      (
        r,
        rw (find_row-remove id next s.jobs, ==_of_ne id next other) found,
        at_time,
        state,
        free,
        same,
      )

next_id-other :
    (queue name : Text) (t time : ℕ)
    → time ≢ t
    → schedule_job_id queue name t ≢ schedule_job_id queue name time
unfolding schedule_job_id
next_id-other queue name t time other e =
    let whole : (schedule_prefix queue ++ name) ++ b':' ∷ decimal t
        ≡ (schedule_prefix queue ++ name) ++ b':' ∷ decimal time =
      e in
    other (
      sym (
        decimal_injective (ap (drop 1) (append-left_cancel (schedule_prefix queue ++ name) whole))))

module _ (timer : Cron) {P R : Type 0} (c : Config) where
  -- A job id looks up the schedule that its third part names.
  trigger_first_part :
      (now : ℕ) (x : ℕ) (part rest : Text) (s : Store P R)
      → has_unit b':' c.name ≡ false
      → has_unit b':' (x ∷ part) ≡ false
      → trigger_next_schedule timer c now (schedule_prefix c.name ++ (x ∷ part) ++ b':' ∷ rest) s
        ≡ trigger_named timer c now (x ∷ part) s
  unfolding trigger_next_schedule
  trigger_first_part now x part rest s q h =
      rw
        (
          append_assoc (schedule_prefix c.name) (x ∷ part) (b':' ∷ rest),
          is_prefix-append (schedule_prefix c.name) ((x ∷ part) ++ b':' ∷ rest),
          schedule_prefix-parts c.name (x ∷ part) rest q h,
        )
        refl

  trigger_named-Enqueued :
      (now time : ℕ) (name : Text) (sched : ScheduledJob P) (s : Store P R)
      → find_row (schedule_key c.name name) s.schedules ≡ some sched
      → next_run timer sched.cron sched.every_ms now ≡ some (ok time)
      → 0 < time
      → now ≤ time
      → Enqueued c now name sched time (trigger_named timer c now name s)
  unfolding trigger_named
  trigger_named-Enqueued now time name sched s e f p h =
      rw (trigger_named, e, f, ltb_yes 0 time p) (enqueue_run-Enqueued c now name sched time s h)

  schedule-stores :
      (now : ℕ) (name : Text) (when : CronOrInterval) (payload : P) (o : JobOptions)
      (sched : ScheduledJob P) (s : Store P R)
      → (schedule timer c now name when payload o s).0 ≡ ok sched
      → (find_row
            (schedule_key c.name name)
            (schedule timer c now name when payload o s).1.schedules
          ≡ some sched)
  unfolding schedule schedule_at
  schedule-stores now name when payload o sched s e =
      elim (Option-cases (next_run timer (cron_of when) (every_of when) now)) [
        | inl f ↦ absurd (err_ne_ok (rw (schedule, f) at e))
        | inr (r, f) ↦ elim (Result-cases r) [
          | inr (x, g) ↦ absurd (err_ne_ok (rw (schedule, f, g) at e))
          | inl (time, g) ↦
              let key = schedule_key c.name name in
              let stored = (schedule_at c now name when payload o time s).0 in
              let same : stored ≡ sched = ok_injective (rw (schedule, f, g) at e) in
              rw (schedule, f, g, find_row-upsert key key stored s.schedules, ==_self key)
                (ap some same)
        ]
      ]

  -- What is known where a job of the schedule ends and another run follows.
  abbrev pub Follows : ℕ → ℕ → ℕ → Text → ScheduledJob P → Store P R → Type 0
  Follows now time x part sched s =
      (has_unit b':' c.name ≡ false)
      × (has_unit b':' (x ∷ part) ≡ false)
      × (find_row (schedule_key c.name (x ∷ part)) s.schedules ≡ some sched)
      × (next_run timer sched.cron sched.every_ms now ≡ some (ok time))
      × (0 < time)
      × (now ≤ time)

  trigger-Enqueued :
      (now time t x : ℕ) (part : Text) (sched : ScheduledJob P) (s : Store P R)
      → Follows now time x part sched s
      → Enqueued c now
          (x ∷ part)
          sched
          time
          (trigger_next_schedule timer c now (schedule_job_id c.name (x ∷ part) t) s)
  unfolding schedule_job_id
  trigger-Enqueued now time t x part sched s (q, h, e, f, p, l) =
      rw (trigger_first_part now x part (decimal t) s q h)
        (trigger_named-Enqueued now time (x ∷ part) sched s e f p l)

  ack-Enqueued :
      (now time t x : ℕ) (part : Text) (sched : ScheduledJob P) (token : ℕ) (result : Option R)
      (r : JobRecord P R) (s : Store P R)
      → Follows now time x part sched s
      → time ≢ t
      → find_row (schedule_job_id c.name (x ∷ part) t) s.jobs ≡ some r
      → r.columns.lock_token ≡ some token
      → Enqueued c now
          (x ∷ part)
          sched
          time
          (ack timer c now (schedule_job_id c.name (x ∷ part) t) token result s).1
  unfolding ack ack_write delete_row
  ack-Enqueued now time t x part sched token result r s f other e h =
      let id = schedule_job_id c.name (x ∷ part) t in
      rw (ack, read_owned-own id token r s.jobs e h)
        (elim (Bool-cases (get_or false r.value.remove_on_complete)) [
          | inl y ↦
              rw (ack_write, y)
                (Enqueued-remove c now (x ∷ part) sched time id
                  (trigger_next_schedule timer c now id s)
                  (next_id-other c.name (x ∷ part) t time other)
                  (trigger-Enqueued now time t x part sched s f))
          | inr n ↦
              rw (ack_write, n, update_row-found id (complete now result) r s.jobs e)
                (trigger-Enqueued now time t x part sched _ f)
        ])

  nack-Enqueued :
      (now time t x : ℕ) (part : Text) (sched : ScheduledJob P) (token : ℕ)
      (message stack : Option Text) (r : JobRecord P R) (s : Store P R)
      → Follows now time x part sched s
      → find_row (schedule_job_id c.name (x ∷ part) t) s.jobs ≡ some r
      → r.columns.lock_token ≡ some token
      → leb r.columns.max_attempts r.columns.attempts ≡ true
      → Enqueued c now
          (x ∷ part)
          sched
          time
          (nack timer c now (schedule_job_id c.name (x ∷ part) t) token message stack s).1
  unfolding nack nack_write
  nack-Enqueued now time t x part sched token message stack r s f e h last =
      let id = schedule_job_id c.name (x ∷ part) t in
      rw
        (
          nack,
          read_owned-own id token r s.jobs e h,
          last,
          update_row-found id (dead_letter now (failure_text message) stack) r s.jobs e,
        )
        (trigger-Enqueued now time t x part sched _ f)

  -- When a job of a schedule with a name without a colon, in a queue named without one, is
  -- acknowledged with its token, or rejected with it at its last attempt, the schedule's next run is
  -- enqueued: a job with the schedule's payload for the time of that run, delayed where it is later, and
  -- not leased; where the next run has another time than the job that is done.
  pub schedule_recurs :
      (now later time t x : ℕ) (part : Text) (when : CronOrInterval) (payload : P) (o : JobOptions)
      (sched : ScheduledJob P) (token : ℕ) (result : Option R) (message stack : Option Text)
      (r : JobRecord P R) (s s' s'' : Store P R) (answer : Result Bool)
      → has_unit b':' c.name ≡ false
      → has_unit b':' (x ∷ part) ≡ false
      → (schedule timer c now (x ∷ part) when payload o s).0 ≡ ok sched
      → s'.schedules ≡ (schedule timer c now (x ∷ part) when payload o s).1.schedules
      → find_row (schedule_job_id c.name (x ∷ part) t) s'.jobs ≡ some r
      → r.columns.lock_token ≡ some token
      → next_run timer sched.cron sched.every_ms later ≡ some (ok time)
      → 0 < time
      → later ≤ time
      → time ≢ t
      → (ack timer c later (schedule_job_id c.name (x ∷ part) t) token result s' ≡ (answer, s''))
        ⊎ ((nack timer c later (schedule_job_id c.name (x ∷ part) t) token message stack s'
              ≡ (answer, s''))
            × (leb r.columns.max_attempts r.columns.attempts ≡ true))
      → Enqueued c later (x ∷ part) sched time s''
  schedule_recurs now later time t x part when payload o sched token result message stack r s s' s''
        answer q h e kept found own next p l other (inl done) =
      let stored : find_row (schedule_key c.name (x ∷ part)) s'.schedules ≡ some sched =
        rw kept (schedule-stores now (x ∷ part) when payload o sched s e) in
      subst (λ z. Enqueued c later (x ∷ part) sched time z) (ap (λ z. z.1) done)
        (ack-Enqueued later time t x part sched token result r s' (q, h, stored, next, p, l) other
          found own)
  schedule_recurs now later time t x part when payload o sched token result message stack r s s' s''
        answer q h e kept found own next p l other (inr (done, last)) =
      let stored : find_row (schedule_key c.name (x ∷ part)) s'.schedules ≡ some sched =
        rw kept (schedule-stores now (x ∷ part) when payload o sched s e) in
      subst (λ z. Enqueued c later (x ∷ part) sched time z) (ap (λ z. z.1) done)
        (nack-Enqueued later time t x part sched token message stack r s' (q, h, stored, next, p, l)
          found own last)

  -- When a job of a schedule named `a:b` is done, no run follows where no schedule is named `a`.
  colon_schedule_stops :
      (now t x : ℕ) (part more : Text) (s : Store P R)
      → has_unit b':' c.name ≡ false
      → has_unit b':' (x ∷ part) ≡ false
      → find_row (schedule_key c.name (x ∷ part)) s.schedules ≡ none
      → trigger_next_schedule timer c now (schedule_job_id c.name ((x ∷ part) ++ b':' ∷ more) t) s
        ≡ s
  unfolding schedule_job_id trigger_named
  colon_schedule_stops now t x part more s q h e =
      rw
        (
          colon_id (schedule_prefix c.name) (x ∷ part) more (decimal t),
          trigger_first_part now x part (more ++ b':' ∷ decimal t) s q h,
          trigger_named,
          e,
        )
        refl
