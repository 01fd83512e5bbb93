-- ===== src/Queue/Settle/Token.antt =====
-- src/queue/queue.ts: lock tokens and the calls that settle a job.
use kvdb_nodejs.Prelude.{
  ℕ, ◌+◌, ◌≡◌, ◌≢◌, ◌⊎◌, refl, sym, ◌∙◌, ap, inl, inr, Bool, true, false, Option, none, some, Text,
  arith, text_keys, find_row, find_row-upsert, find_row-remove, upsert, remove, some_injective,
  some_ne_none, get_or, leb, Bool-cases, Option-cases, ◌==◌, ==_self,
}
use kvdb_nodejs.Core.Failure.{Failure, Result, ok, err, thrown, kvdb_queue_error}
use kvdb_nodejs.Queue.Job.{JobOptions, JobRecord, Jobs, Config, Store, Cron, update_row-found}
use kvdb_nodejs.Queue.Push.{push, new_record}
use kvdb_nodejs.Queue.Schedule.{trigger_next_schedule, enqueue_run}
use kvdb_nodejs.Queue.Schedule.Trigger.{trigger_cases}
use kvdb_nodejs.Queue.Settle.{
  ack, failure_text, nack, read_owned, ack_write, nack_write, holds_token, complete, dead_letter,
  retry_at, settled, calculate_backoff,
}

wrong_answer : Path (Result Bool) (ok false) (ok true) → ⊥
wrong_answer e = cc

threw : {f : Failure} → Path (Result Bool) (err f) (ok true) → ⊥
threw e = cc

module _ {P R : Type 0} where
  -- The row of the id, if there is one, has no lock token.
  abbrev pub Unlocked : Text → Store P R → Type 0
  Unlocked id s = (r : JobRecord P R) → find_row id s.jobs ≡ some r → r.columns.lock_token ≡ none

  read_owned-other :
      (id : Text) (token : ℕ) (r : JobRecord P R) (jobs : Jobs P R)
      → find_row id jobs ≡ some r
      → r.columns.lock_token ≢ some token
      → read_owned id token jobs ≡ err (thrown kvdb_queue_error)
  unfolding read_owned
  read_owned-other id token r jobs e h =
      rw (read_owned, e)
        (elim (Option-cases r.columns.lock_token) [
          | inl f ↦ rw f refl
          | inr (t, f) ↦ rw f (ground (arith, f, h))
        ])

  Unlocked-upsert :
      (id k : Text) (r : JobRecord P R) (s : Store P R)
      → r.columns.lock_token ≡ none
      → Unlocked id s
      → Unlocked id (record s { jobs = upsert k r s.jobs })
  Unlocked-upsert id k r s free h x e =
      let e' = rw (find_row-upsert k id r s.jobs) at e in
      elim (Bool-cases (k == id)) [
        | inl y ↦
            let same : some r ≡ some x = rw y at e' in
            ap (λ z. z.columns.lock_token) (sym (some_injective same)) ∙ free
        | inr n ↦ h x (rw n at e')
      ]

  -- A settled row of the id itself.
  Unlocked-written :
      (id : Text) (r : JobRecord P R) (s : Store P R)
      → r.columns.lock_token ≡ none
      → Unlocked id (record s { jobs = upsert id r s.jobs })
  Unlocked-written id r s free x e =
      let same : some r ≡ some x = rw (find_row-upsert id id r s.jobs, ==_self id) at e in
      ap (λ z. z.columns.lock_token) (sym (some_injective same)) ∙ free

  Unlocked-removed :
      (id : Text) (s : Store P R) → Unlocked id (record s { jobs = remove id s.jobs })
  Unlocked-removed id s x e =
      absurd (some_ne_none (sym (rw (find_row-remove id id s.jobs, ==_self id) at e)))

  Unlocked-run :
      (c : Config) (now : ℕ) (name : Text) (payload : P) (o : JobOptions) (time : ℕ) (id : Text)
      (s : Store P R)
      → Unlocked id s
      → Unlocked id (enqueue_run c now name payload o time s)
  unfolding enqueue_run push new_record
  Unlocked-run c now name payload o time id s h = Unlocked-upsert id _ _ s refl h

module _ (timer : Cron) {P R : Type 0} (c : Config) (now : ℕ) where
  Unlocked-trigger :
      (k id : Text) (s : Store P R)
      → Unlocked id s
      → Unlocked id (trigger_next_schedule timer c now k s)
  Unlocked-trigger k id s h = elim (trigger_cases timer c now k s) [
    | inl e ↦ rw e h
    | inr (name, payload, o, time, e) ↦ rw e (Unlocked-run c now name payload o time id s h)
  ]

  -- A settling call that read a row without the token has no effect.
  refused :
      (id : Text) (token : ℕ) (r : JobRecord P R) (s : Store P R)
      (next : JobRecord P R → Store P R → Result Bool × Store P R)
      → find_row id s.jobs ≡ some r
      → r.columns.lock_token ≢ some token
      → settled timer (read_owned id token s.jobs) s next ≡ (err (thrown kvdb_queue_error), s)
  unfolding settled
  refused id token r s next e h = rw (read_owned-other id token r s.jobs e h) refl

  Unlocked-refuses :
      (id : Text) (token : ℕ) (s : Store P R)
      (next : JobRecord P R → Store P R → Result Bool × Store P R)
      → Unlocked id s
      → (settled timer (read_owned id token s.jobs) s next ≡ (err (thrown kvdb_queue_error), s))
        ⊎ (settled timer (read_owned id token s.jobs) s next ≡ (ok false, s))
  unfolding settled read_owned
  Unlocked-refuses id token s next h = elim (Option-cases (find_row id s.jobs)) [
    | inl e ↦ inr (rw (read_owned, e) refl)
    | inr (r, e) ↦ inl (refused id token r s next e (λ f. some_ne_none (sym f ∙ h r e)))
  ]

  pub ack_write-Unlocked :
      (id : Text) (result : Option R) (r r' : JobRecord P R) (s : Store P R)
      → find_row id s.jobs ≡ some r'
      → Unlocked id (ack_write timer c now id result r s).1
  unfolding ack_write
  ack_write-Unlocked id result r r' s e =
      elim (Bool-cases (get_or false r.value.remove_on_complete)) [
        | inl y ↦ rw (ack_write, y) (Unlocked-removed id (trigger_next_schedule timer c now id s))
        | inr n ↦
            rw (ack_write, n, update_row-found id (complete now result) r' s.jobs e)
              (Unlocked-trigger id id _ (Unlocked-written id (complete now result r') s refl))
      ]

  nack_write-Unlocked :
      (id message : Text) (stack : Option Text) (r r' : JobRecord P R) (s : Store P R)
      → find_row id s.jobs ≡ some r'
      → Unlocked id (nack_write timer c now id message stack r s).1
  unfolding nack_write
  nack_write-Unlocked id message stack r r' s e =
      elim (Bool-cases (leb r.columns.max_attempts r.columns.attempts)) [
        | inl y ↦
            rw (nack_write, y, update_row-found id (dead_letter now message stack) r' s.jobs e)
              (Unlocked-trigger id id _
                (Unlocked-written id (dead_letter now message stack r') s refl))
        | inr n ↦
            let run_at =
              now
              + calculate_backoff (get_or c.default_backoff r.value.backoff) r.columns.attempts in
            rw (nack_write, n, update_row-found id (retry_at now run_at message stack) r' s.jobs e)
              (Unlocked-written id (retry_at now run_at message stack r') s refl)
      ]

  -- Whatever the read said, the row is unlocked after a write, or the state is the same.
  settled-cases :
      (id : Text) (token : ℕ) (s : Store P R)
      (next : JobRecord P R → Store P R → Result Bool × Store P R)
      → ((r : JobRecord P R) → find_row id s.jobs ≡ some r → Unlocked id (next r s).1)
      → (settled timer (read_owned id token s.jobs) s next).0 ≡ ok true
      → Unlocked id (settled timer (read_owned id token s.jobs) s next).1
  unfolding settled read_owned
  settled-cases id token s next h won = elim (Option-cases (find_row id s.jobs)) [
    | inl e ↦ absurd (wrong_answer (rw (read_owned, e) at won))
    | inr (r, e) ↦ elim (Bool-cases (holds_token r.columns token)) [
      | inl y ↦ rw (read_owned, e, y) (h r e)
      | inr n ↦ absurd (threw (rw (read_owned, e, n) at won))
    ]
  ]

  settled-Unlocked :
      (id : Text) (token : ℕ) (result : Option R) (message stack : Option Text) (s s' : Store P R)
      → (ack timer c now id token result s ≡ (ok true, s'))
        ⊎ (nack timer c now id token message stack s ≡ (ok true, s'))
      → Unlocked id s'
  unfolding ack nack
  settled-Unlocked id token result message stack s s' (inl e) = rw (ap (λ z. z.1) e) at (
      settled-cases id token s (ack_write timer c now id result)
        (λ r f. ack_write-Unlocked id result r r s f) (ap (λ z. z.0) e))
  settled-Unlocked id token result message stack s s' (inr e) = rw (ap (λ z. z.1) e) at (
      settled-cases id token s (nack_write timer c now id (failure_text message) stack)
        (λ r f. nack_write-Unlocked id _ stack r r s f) (ap (λ z. z.0) e))

  inert :
      (id : Text) (token : ℕ) (s : Store P R)
      (next : JobRecord P R → Store P R → Result Bool × Store P R)
      → Unlocked id s
      → ((settled timer (read_owned id token s.jobs) s next).0 ≢ ok true)
        × ((settled timer (read_owned id token s.jobs) s next).1 ≡ s)
  inert id token s next free = elim (Unlocked-refuses id token s next free) [
    | inl e ↦ rw e ((λ f. threw f), refl)
    | inr e ↦ rw e ((λ f. wrong_answer f), refl)
  ]

  pub Unlocked-ack :
      (id : Text) (token : ℕ) (result : Option R) (s : Store P R)
      → Unlocked id s
      → (ack timer c now id token result s).0 ≢ ok true
  unfolding ack
  Unlocked-ack id token result s free = (inert id token s (ack_write timer c now id result) free).0

  -- After an acknowledgement, or a rejection that schedules a retry, no call settles that run of the
  -- job again: the answer is not true, whatever the token, and the state stays the same.
  pub settle_once :
      (id : Text) (token : ℕ) (result : Option R) (message stack : Option Text) (s s' : Store P R)
      → (ack timer c now id token result s ≡ (ok true, s'))
        ⊎ (nack timer c now id token message stack s ≡ (ok true, s'))
      → (later token' : ℕ) (result' : Option R) (message' stack' : Option Text)
      → ((ack timer c later id token' result' s').0 ≢ ok true)
        × ((ack timer c later id token' result' s').1 ≡ s')
        × ((nack timer c later id token' message' stack' s').0 ≢ ok true)
        × ((nack timer c later id token' message' stack' s').1 ≡ s')
  unfolding ack nack
  settle_once id token result message stack s s' done later token' result' message' stack' =
      let free = settled-Unlocked id token result message stack s s' done in
      let a = inert id token' s' (ack_write timer c later id result') free in
      let n =
        inert id token' s' (nack_write timer c later id (failure_text message') stack') free in
      (a.0, a.1, n.0, n.1)
