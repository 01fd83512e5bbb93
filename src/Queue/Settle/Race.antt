-- ===== src/Queue/Settle/Race.antt =====
-- src/queue/queue.ts: calls between the read and the write of another call.
use kvdb_nodejs.Prelude.{
  ℕ, ◌+◌, ◌<◌, ◌≡◌, ◌≢◌, refl, sym, ap, true, false, ◌∷◌, Option, some, Text, text_keys, find_row,
  find_row-upsert, upsert, get_or, leb, ==_self,
}
use kvdb_nodejs.Core.Failure.{ok}
use kvdb_nodejs.Queue.Job.{Job, to_job, JobRecord, Jobs, Config, Store, Cron, update_row-found}
use kvdb_nodejs.Queue.Pop.{claim_first}
use kvdb_nodejs.Queue.Pop.Order.{leased}
use kvdb_nodejs.Queue.Pop.Lease.{claim_first_leases, stale_candidate_runs_early}
use kvdb_nodejs.Queue.Settle.{ack, ack_write, nack, complete, retry_at, failure_text}
use kvdb_nodejs.Queue.Settle.Token.{ack_write-Unlocked, Unlocked-ack}
use kvdb_nodejs.Queue.Settle.Retry.{nack-retries, retry_time}

module _ (timer : Cron) {P R : Type 0} (c : Config) where
  ack_write-true :
      (now : ℕ) (id : Text) (result : Option R) (r r' : JobRecord P R) (s : Store P R)
      → find_row id s.jobs ≡ some r'
      → get_or false r.value.remove_on_complete ≡ false
      → (ack_write timer c now id result r s).0 ≡ ok true
  unfolding ack_write
  ack_write-true now id result r r' s e kept =
      rw (ack_write, kept, update_row-found id (complete now result) r' s.jobs e) refl

  -- Between the read and the write of an acknowledgement another worker can take the job, over an
  -- expired lease: the write still succeeds, and the other worker, whose lease runs, can no longer
  -- acknowledge the job with any token.
  late_ack_evicts :
      (now later visibility uuid token' : ℕ) (id : Text) (result result' : Option R)
      (r : JobRecord P R) (cs : Jobs P R) (j : Job P R) (s : Store P R)
      → get_or false r.value.remove_on_complete ≡ false
      → (claim_first now visibility uuid cs s.jobs).0 ≡ some j
      → j.id ≡ id
      → later < now + visibility
      → (let taken = record s { jobs = (claim_first now visibility uuid cs s.jobs).1 } in
          ((ack_write timer c later id result r taken).0 ≡ ok true)
          × ((ack timer c later id token' result' (ack_write timer c later id result r taken).1).0
              ≢ ok true))
  late_ack_evicts now later visibility uuid token' id result result' r cs j s kept won same h =
      let taken : Store P R = record s { jobs = (claim_first now visibility uuid cs s.jobs).1 } in
      let (r', stored, l) = claim_first_leases now visibility uuid later cs s.jobs j won h in
      let found : find_row id taken.jobs ≡ some r' = rw (sym same) stored in
      (
        ack_write-true later id result r r' taken found kept,
        Unlocked-ack timer c later id token' result' (ack_write timer c later id result r taken).1
            (ack_write-Unlocked timer c later id result r r' taken found),
      )

  -- A worker that read the job as a candidate before it was rejected gets it before its backoff is over.
  backoff_skipped :
      (now later visibility uuid : ℕ) (id : Text) (token : ℕ) (message stack : Option Text)
      (r old : JobRecord P R) (cs : Jobs P R) (s : Store P R)
      → find_row id s.jobs ≡ some r
      → r.columns.lock_token ≡ some token
      → leb r.columns.max_attempts r.columns.attempts ≡ false
      → later < retry_time c now r
      → (j : Job P R) × ((claim_first later visibility uuid
            ((id, old) ∷ cs)
            (nack timer c now id token message stack s).1.jobs).0
          ≡ some j)
        × (j.id ≡ id)
        × (later < j.columns.run_at)
  unfolding to_job retry_at
  backoff_skipped now later visibility uuid id token message stack r old cs s e h n early =
      let again = retry_at now (retry_time c now r) (failure_text message) stack r in
      let jobs' = upsert id again s.jobs in
      let (took, soon) =
        stale_candidate_runs_early later visibility uuid id old again cs jobs'
          (rw (find_row-upsert id id again s.jobs, ==_self id) refl) refl early in
      rw (nack-retries timer c now id token message stack r s e h n)
        (to_job id (leased later uuid (later + visibility) again), ap (λ z. z.0) took, refl, soon)
