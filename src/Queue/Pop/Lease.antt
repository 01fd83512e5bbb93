-- ===== src/Queue/Pop/Lease.antt =====
-- src/queue/queue.ts: claims of leased rows and of stale candidates.
use kvdb_nodejs.Prelude.{
  ℕ, suc, ◌+◌, ◌<◌, ◌≡◌, ◌≢◌, inl, inr, refl, sym, ◌∙◌, ap, [], ◌∷◌, Option, none, some, Text,
  text_keys, arith, find_row, upsert, find_row-upsert, some_ne_none, ==_iff, ==_self, Bool-cases,
}
use kvdb_nodejs.Core.Failure.{ok, err, plain_error, Result-cases}
use kvdb_nodejs.Queue.Job.{Job, active, delayed, JobRecord, Jobs, to_job}
use kvdb_nodejs.Queue.Pop.{claim, claim_first, claimable_in}
use kvdb_nodejs.Queue.Pop.Order.{leased}

module _ {P R : Type 0} where
  -- The id of a job that is there.
  id_of : Option (Job P R) → Text
  id_of none = []
  id_of (some j) = j.id

module _ {P R : Type 0} where
  -- The row is leased at `now`.
  pub record IsLeased (now : ℕ) (r : JobRecord P R) : Type 0 where
    pub is_active : r.columns.state ≡ active
    pub expiry : ℕ
    pub expires : r.columns.lock_expires_at ≡ some expiry
    pub runs : now < expiry

  claim-leased :
      (now token expiry : ℕ) (r : JobRecord P R)
      → IsLeased now r
      → claim now token expiry (some r) ≡ err (plain_error "Job already claimed by another worker")
  unfolding claim
  claim-leased now token expiry r l = ground (arith, l.is_active, l.expires, l.runs)

  claimed_other :
      (now token expiry : ℕ) (jobs : Jobs P R) (k id : Text) (r r' : JobRecord P R)
      → find_row id jobs ≡ some r
      → IsLeased now r
      → claim now token expiry (find_row k jobs) ≡ ok r'
      → k ≢ id
  claimed_other now token expiry jobs k id r r' e l won same =
      let stuck : claim now token expiry (some r) ≡ ok r' = rw (same, e) at won in
      cc (claim-leased now token expiry r l)

  claimed_id : (k : Text) (r : JobRecord P R) (j : Job P R) → some (to_job k r) ≡ some j → j.id ≡ k
  unfolding to_job id_of
  claimed_id k r j f = ap id_of (sym f)

  -- No claim loop touches a leased row, or returns its job.
  claim_first_skips :
      (now visibility uuid : ℕ) (cs jobs : Jobs P R) (id : Text) (r : JobRecord P R)
      → find_row id jobs ≡ some r
      → IsLeased now r
      → (find_row id (claim_first now visibility uuid cs jobs).1 ≡ some r)
        × ((j : Job P R) → (claim_first now visibility uuid cs jobs).0 ≡ some j → j.id ≢ id)
  unfolding claim_first
  claim_first_skips now visibility uuid [] jobs id r e l = (e, λ j f. absurd (some_ne_none (sym f)))
  claim_first_skips now visibility uuid ((k, old) ∷ cs) jobs id r e l =
      let ih = claim_first_skips now visibility (suc uuid) cs jobs id r e l in
      elim (Result-cases (claim now uuid (now + visibility) (find_row k jobs))) [
        | inr (f, refused) ↦ rw refused ih
        | inl (r', won) ↦
            let other : k ≢ id = claimed_other now uuid (now + visibility) jobs k id r r' e l won in
            rw won (
              rw (find_row-upsert k id r' jobs) (ground (arith, ==_iff k id)),
              λ j f same. other (sym (claimed_id k r' j f) ∙ same),
            )
      ]

  claim-wins :
      (now token expiry : ℕ) (r r' : JobRecord P R)
      → claim now token expiry (some r) ≡ ok r'
      → r' ≡ leased now token expiry r
  unfolding claim
  claim-wins now token expiry r r' won =
      elim (Bool-cases (claimable_in r.columns.state r.columns now)) [
        | inl y ↦ let w = rw y at won in cc
        | inr n ↦ let w = rw n at won in cc
      ]

  claim-none : (now token expiry : ℕ) (r : JobRecord P R) → claim now token expiry none ≢ ok r
  unfolding claim
  claim-none now token expiry r won = cc

  leased-IsLeased :
      (now token expiry later : ℕ) (r : JobRecord P R)
      → later < expiry
      → IsLeased later (leased now token expiry r)
  leased-IsLeased now token expiry later r h = record {
    is_active = refl;
    expiry = expiry;
    expires = refl;
    runs = h;
  }

  claimed-IsLeased :
      (now token expiry later : ℕ) (o : Option (JobRecord P R)) (r' : JobRecord P R)
      → claim now token expiry o ≡ ok r'
      → later < expiry
      → IsLeased later r'
  claimed-IsLeased now token expiry later none r' won h =
      absurd (claim-none now token expiry r' won)
  claimed-IsLeased now token expiry later (some r) r' won h =
      rw (claim-wins now token expiry r r' won) (leased-IsLeased now token expiry later r h)

  -- The row of a job that a claim loop returns is leased for the visibility time.
  pub claim_first_leases :
      (now visibility uuid later : ℕ) (cs jobs : Jobs P R) (j : Job P R)
      → (claim_first now visibility uuid cs jobs).0 ≡ some j
      → later < now + visibility
      → (r : JobRecord P R) × (find_row j.id (claim_first now visibility uuid cs jobs).1 ≡ some r)
        × IsLeased later r
  unfolding claim_first
  claim_first_leases now visibility uuid later [] jobs j f h = absurd (some_ne_none (sym f))
  claim_first_leases now visibility uuid later ((k, old) ∷ cs) jobs j f h =
      elim (Result-cases (claim now uuid (now + visibility) (find_row k jobs))) [
        | inr (e, refused) ↦
            rw refused
              (claim_first_leases now visibility (suc uuid) later cs jobs j (rw refused at f) h)
        | inl (r', won) ↦
            let same : j.id ≡ k = claimed_id k r' j (rw won at f) in
            rw (same, won)
              (
                r',
                rw (find_row-upsert k k r' jobs, ==_self k) refl,
                claimed-IsLeased now uuid (now + visibility) later (find_row k jobs) r' won h,
              )
      ]

  -- A job that a claim loop returned is not returned by any claim loop, over any candidates, at any
  -- time before the visibility time is over, and its row stays as it is.
  pub pop_exclusive :
      (now visibility uuid later visibility' uuid' : ℕ) (cs cs' jobs : Jobs P R) (j j' : Job P R)
      → (claim_first now visibility uuid cs jobs).0 ≡ some j
      → later < now + visibility
      → (let jobs' = (claim_first now visibility uuid cs jobs).1 in
          (find_row j.id (claim_first later visibility' uuid' cs' jobs').1 ≡ find_row j.id jobs')
          × ((claim_first later visibility' uuid' cs' jobs').0 ≡ some j' → j'.id ≢ j.id))
  pop_exclusive now visibility uuid later visibility' uuid' cs cs' jobs j j' won h =
      let (r, stored, l) = claim_first_leases now visibility uuid later cs jobs j won h in
      let (kept, skips) =
        claim_first_skips later visibility' uuid' cs' (claim_first now visibility uuid cs jobs).1
          j.id r stored l in
      (kept ∙ sym stored, skips j')

  -- A job that became delayed after it was read as a candidate is claimed before its time.
  pub stale_candidate_runs_early :
      (now visibility uuid : ℕ) (id : Text) (old r : JobRecord P R) (cs jobs : Jobs P R)
      → find_row id jobs ≡ some r
      → r.columns.state ≡ delayed
      → now < r.columns.run_at
      → (claim_first now visibility uuid ((id, old) ∷ cs) jobs ≡ (
          let r' = leased now uuid (now + visibility) r in
          (some (to_job id r'), upsert id r' jobs)))
        × (now < (leased now uuid (now + visibility) r).columns.run_at)
  unfolding claim_first
  stale_candidate_runs_early now visibility uuid id old r cs jobs stored d early =
      (rw (stored, d) refl, early)
