-- ===== src/Queue/Settle/Retry.antt =====
-- src/queue/queue.ts: when a rejected job is ready again, and jobs whose workers die.
use kvdb_nodejs.Prelude.{
  ℕ, zero, suc, ◌+◌, ◌≡◌, refl, inl, inr, true, false, not, Option, some, Text, arith, text_keys,
  find_row, find_row-upsert, upsert, get_or, is_prefix, leb, if◌then◌else◌, Bool-cases, ==_self,
}
use kvdb_nodejs.Core.Failure.{Result, ok, ◌>>=◌}
use kvdb_nodejs.Queue.Job.{active, JobRecord, Jobs, Config, Store, Cron, update_row-found}
use kvdb_nodejs.Queue.Pop.{is_ready, lease_over, claim}
use kvdb_nodejs.Queue.Pop.Order.{leased}
use kvdb_nodejs.Queue.Schedule.{schedule_prefix}
use kvdb_nodejs.Queue.Schedule.Trigger.{trigger_other}
use kvdb_nodejs.Queue.Settle.{
  nack, failure_text, read_owned, nack_write, dead_letter, retry_at, settled, calculate_backoff,
}

module _ {P R : Type 0} where
  pub read_owned-own :
      (id : Text) (token : ℕ) (r : JobRecord P R) (jobs : Jobs P R)
      → find_row id jobs ≡ some r
      → r.columns.lock_token ≡ some token
      → read_owned id token jobs ≡ ok (some r)
  unfolding read_owned
  read_owned-own id token r jobs e h = rw (read_owned, e, h) (ground arith)

  dead-not_ready :
      (now later : ℕ) (message : Text) (stack : Option Text) (r : JobRecord P R)
      → is_ready (dead_letter now message stack r).columns later ≡ false
  unfolding is_ready dead_letter
  dead-not_ready now later message stack r = refl

  retry-ready :
      (now run_at later : ℕ) (message : Text) (stack : Option Text) (r : JobRecord P R)
      → is_ready (retry_at now run_at message stack r).columns later ≡ leb run_at later
  unfolding is_ready retry_at
  retry-ready now run_at later message stack r = refl

module _ {P R : Type 0} (c : Config) where
  abbrev pub retry_time : ℕ → JobRecord P R → ℕ
  retry_time now r =
      now + calculate_backoff (get_or c.default_backoff r.value.backoff) r.columns.attempts

module _ (timer : Cron) {P R : Type 0} (c : Config) where
  nack-spent :
      (now : ℕ) (id : Text) (token : ℕ) (message stack : Option Text) (r : JobRecord P R)
      (s : Store P R)
      → find_row id s.jobs ≡ some r
      → r.columns.lock_token ≡ some token
      → is_prefix (schedule_prefix c.name) id ≡ false
      → leb r.columns.max_attempts r.columns.attempts ≡ true
      → nack timer c now id token message stack s ≡ (
        ok false,
        record s { jobs = upsert id (dead_letter now (failure_text message) stack r) s.jobs },
      )
  unfolding nack nack_write settled
  nack-spent now id token message stack r s e h other y =
      rw
        (
          nack,
          read_owned-own id token r s.jobs e h,
          y,
          update_row-found id (dead_letter now (failure_text message) stack) r s.jobs e,
          trigger_other timer c now id
              (record s {
                jobs = upsert id (dead_letter now (failure_text message) stack r) s.jobs;
              })
              other,
        )
        refl

  pub nack-retries :
      (now : ℕ) (id : Text) (token : ℕ) (message stack : Option Text) (r : JobRecord P R)
      (s : Store P R)
      → find_row id s.jobs ≡ some r
      → r.columns.lock_token ≡ some token
      → leb r.columns.max_attempts r.columns.attempts ≡ false
      → nack timer c now id token message stack s ≡ (
        ok true,
        record s {
          jobs =
              upsert id (retry_at now (retry_time c now r) (failure_text message) stack r) s.jobs;
        },
      )
  unfolding nack nack_write settled
  nack-retries now id token message stack r s e h n =
      rw
        (
          nack,
          read_owned-own id token r s.jobs e h,
          n,
          update_row-found id (retry_at now (retry_time c now r) (failure_text message) stack) r
              s.jobs e,
        )
        refl

  -- A job that its holder rejects, and that no schedule made, is never ready again where its
  -- attempts are used up; else it is ready from the time of the rejection plus the backoff on.
  pub nack_defers :
      (now : ℕ) (id : Text) (token : ℕ) (message stack : Option Text) (r : JobRecord P R)
      (s : Store P R)
      → find_row id s.jobs ≡ some r
      → r.columns.lock_token ≡ some token
      → is_prefix (schedule_prefix c.name) id ≡ false
      → (let spent = leb r.columns.max_attempts r.columns.attempts in
          let backoff =
            calculate_backoff (get_or c.default_backoff r.value.backoff) r.columns.attempts in
          ((nack timer c now id token message stack s).0 ≡ ok (not spent))
          × ((r' : JobRecord P R) × (find_row id (nack timer c now id token message stack s).1.jobs
                ≡ some r')
              × ((later : ℕ)
                  → is_ready r'.columns later
                    ≡ (if spent then false else leb (now + backoff) later))))
  nack_defers now id token message stack r s e h other =
      elim (Bool-cases (leb r.columns.max_attempts r.columns.attempts)) [
        | inl y ↦
            let dead = dead_letter now (failure_text message) stack r in
            rw (nack-spent now id token message stack r s e h other y, y)
              (
                refl,
                (
                  dead,
                  rw (find_row-upsert id id dead s.jobs, ==_self id) refl,
                  λ later. dead-not_ready now later (failure_text message) stack r,
                ),
              )
        | inr n ↦
            let again = retry_at now (retry_time c now r) (failure_text message) stack r in
            rw (nack-retries now id token message stack r s e h n, n)
              (
                refl,
                (
                  again,
                  rw (find_row-upsert id id again s.jobs, ==_self id) refl,
                  λ later.
                      retry-ready now (retry_time c now r) later (failure_text message) stack r,
                ),
              )
      ]

module _ {P R : Type 0} where
  claim-expired :
      (now token expiry : ℕ) (r : JobRecord P R)
      → r.columns.state ≡ active
      → lease_over r.columns now ≡ true
      → claim now token expiry (some r) ≡ ok (leased now token expiry r)
  unfolding claim
  claim-expired now token expiry r a l = rw (claim, a, l) refl

  leased-ends :
      (now token expiry : ℕ) (r : JobRecord P R)
      → lease_over (leased now token expiry r).columns expiry ≡ true
  unfolding lease_over
  leased-ends now token expiry r = ground arith

  -- Workers that die one after the other: each claim comes when the lease before it is over.
  claims_after : ℕ → ℕ → ℕ → ℕ → JobRecord P R → Result (JobRecord P R)
  claims_after zero now visibility uuid r = ok r
  claims_after (suc n) now visibility uuid r = claim now uuid (now + visibility) (some r) >>= λ r'.
      claims_after n (now + visibility) visibility (suc uuid) r'

  -- A job with an expired lease is claimed any number of times, however few attempts it may have.
  attempts_unbounded :
      (n now visibility uuid : ℕ) (r : JobRecord P R)
      → r.columns.state ≡ active
      → lease_over r.columns now ≡ true
      → (r' : JobRecord P R) × (claims_after n now visibility uuid r ≡ ok r')
        × (r'.columns.attempts ≡ r.columns.attempts + n)
        × (r'.columns.max_attempts ≡ r.columns.max_attempts)
  unfolding claims_after claim
  attempts_unbounded zero now visibility uuid r a l = (r, refl, omega arith, refl)
  attempts_unbounded (suc n) now visibility uuid r a l =
      let next = leased now uuid (now + visibility) r in
      let (r', e, count, bound) =
        attempts_unbounded n (now + visibility) visibility (suc uuid) next refl
          (leased-ends now uuid (now + visibility) r) in
      (
        r',
        rw (claims_after, claim-expired now uuid (now + visibility) r a l) e,
        omega (arith, count),
        bound,
      )
