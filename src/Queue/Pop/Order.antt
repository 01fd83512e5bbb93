-- ===== src/Queue/Pop/Order.antt =====
-- Which job an undisturbed `pop` takes.
use kvdb_nodejs.Prelude.{
  ◌<◌, ◌≤◌, ℕ, ◌+◌, ◌≡◌, ◌⊎◌, inl, inr, refl, true, false, [], ◌∷◌, Option, none, some, Text,
  text_keys, arith, find_row, upsert, filter, take, get_or, All, Bool-cases, cons_ne_nil, All-map,
  All-filter, All-of_filter,
}
use kvdb_nodejs.Core.Failure.{ok}
use kvdb_nodejs.Queue.Job.{active, QueueColumns, JobRecord, Jobs, Config, Store, to_job}
use kvdb_nodejs.Queue.Pop.{is_ready, sorts_before, insert_row, sort_rows, candidates, claim, pop}

-- A smaller priority number, or the same and an earlier time, or the same and no later creation.
abbrev pub Before : QueueColumns → QueueColumns → Type 0
Before a b =
    (a.priority < b.priority)
    ⊎ ((a.priority ≡ b.priority)
        × ((a.run_at < b.run_at) ⊎ ((a.run_at ≡ b.run_at) × (a.created_at ≤ b.created_at))))

sorts_before_first : (a b : QueueColumns) → sorts_before a b ≡ true → Before a b
unfolding sorts_before
sorts_before_first a b h = ground (arith, h)

sorts_before_total : (a b : QueueColumns) → sorts_before a b ≡ false → Before b a
unfolding sorts_before
sorts_before_total a b h = ground (arith, h)

sorts-Before_trans : (a b c : QueueColumns) → Before a b → Before b c → Before a c
sorts-Before_trans a b c p q = ground (arith, p, q)

sorts-Before_refl : (a : QueueColumns) → Before a a
sorts-Before_refl a = ground arith

module _ {P R : Type 0} where
  -- A row of the table that sorts before all its rows, as the head of the sorted rows.
  abbrev Heads : Text × JobRecord P R → Jobs P R → Jobs P R → Type 1
  Heads h t rows =
      (sort_rows rows ≡ h ∷ t)
      × All (λ (x : Text × JobRecord P R). Before h.1.columns x.1.columns) rows
      × ((Q : Text × JobRecord P R → Type 0) → All Q rows → Q h)

  Heads-insert :
      (r h : Text × JobRecord P R) (t rows : Jobs P R)
      → Heads h t rows
      → (g : Text × JobRecord P R) × (u : Jobs P R) × Heads g u (r ∷ rows)
  unfolding candidates
  Heads-insert r h t rows (e, least, close) =
      elim (Bool-cases (sorts_before r.1.columns h.1.columns)) [
        | inl first ↦ (
          r,
          h ∷ t,
          (
            rw (e, first),
            (
              sorts-Before_refl r.1.columns,
              All-map rows
                  (λ x b.
                    sorts-Before_trans r.1.columns h.1.columns x.1.columns
                      (sorts_before_first r.1.columns h.1.columns first) b)
                  least,
            ),
            λ Q q. q.0,
          ),
        )
        | inr later ↦ (
          h,
          insert_row r t,
          (
            rw (e, later),
            (sorts_before_total r.1.columns h.1.columns later, least),
            λ Q q. close Q q.1,
          ),
        )
      ]

  sort-Heads :
      (r : Text × JobRecord P R) (rows : Jobs P R)
      → (h : Text × JobRecord P R) × (t : Jobs P R) × Heads h t (r ∷ rows)
  unfolding candidates
  sort-Heads r [] = (r, [], (refl, (sorts-Before_refl r.1.columns, tt), λ Q q. q.0))
  sort-Heads r (x ∷ rows) =
      let (h, t, heads) = sort-Heads x rows in Heads-insert r h t (x ∷ rows) heads

-- The row that a claim writes.
abbrev pub leased : {P R : Type 0} → ℕ → ℕ → ℕ → JobRecord P R → JobRecord P R
leased now token expiry r = record r {
  columns = record (r.columns) {
    state = active;
    lock_token = some token;
    lock_expires_at = some expiry;
    attempts = r.columns.attempts + 1;
    updated_at = now;
  };
}

module _ {P R : Type 0} where
  ready_claimable :
      (now token expiry : ℕ) (r : JobRecord P R)
      → is_ready r.columns now ≡ true
      → claim now token expiry (some r) ≡ ok (leased now token expiry r)
  unfolding is_ready claim
  ready_claimable now token expiry r h = ground arith

  -- Each row is the row of its key.
  abbrev pub IsTable : Jobs P R → Type 0
  IsTable jobs = All (λ (row : Text × JobRecord P R). find_row row.0 jobs ≡ some row.1) jobs

  abbrev pub NothingReady : ℕ → Jobs P R → Type 0
  NothingReady now jobs =
      All (λ (row : Text × JobRecord P R). is_ready row.1.columns now ≡ false) jobs

  -- A ready row of the table that sorts before every ready row.
  pub record IsFirstReady (now : ℕ) (jobs : Jobs P R) (id : Text) (r : JobRecord P R) : Type 0 where
    pub stored : find_row id jobs ≡ some r
    pub ready : is_ready r.columns now ≡ true
    pub least :
        All
          (λ (row : Text × JobRecord P R).
            is_ready row.1.columns now ≡ true → Before r.columns row.1.columns)
          jobs

  filtered : ℕ → Jobs P R → Jobs P R
  filtered now jobs = filter (λ row. is_ready row.1.columns now) jobs

  none_ready : (now : ℕ) (jobs : Jobs P R) → filtered now jobs ≡ [] → NothingReady now jobs
  unfolding filtered filter
  none_ready now [] e = tt
  none_ready now (x ∷ jobs) e = elim (Bool-cases (is_ready x.1.columns now)) [
    | inl y ↦ absurd (cons_ne_nil (rw y at e))
    | inr n ↦ (n, none_ready now jobs (rw n at e))
  ]

  first_ready :
      (now : ℕ) (jobs : Jobs P R) (x : Text × JobRecord P R) (xs : Jobs P R)
      → IsTable jobs
      → filtered now jobs ≡ x ∷ xs
      → (h : Text × JobRecord P R) × (t : Jobs P R) × (candidates now jobs ≡ h ∷ t)
        × IsFirstReady now jobs h.0 h.1
  unfolding filtered candidates
  first_ready now jobs x xs table e =
      let (h, t, heads) = sort-Heads x xs in
      let kept = rw e at (
        All-filter (λ (row : Text × JobRecord P R). find_row row.0 jobs ≡ some row.1)
          (λ row. is_ready row.1.columns now) jobs table) in
      let here = heads.2 _ kept in
      (
        h,
        take 9 t,
        rw (e, heads.0),
        record {
          stored = here.0;
          ready = here.1;
          least =
              All-of_filter (λ (row : Text × JobRecord P R). Before h.1.columns row.1.columns)
                (λ row. is_ready row.1.columns now) jobs (rw e heads.1);
        },
      )

  no_candidates : (now : ℕ) (jobs : Jobs P R) → filtered now jobs ≡ [] → candidates now jobs ≡ []
  unfolding filtered candidates
  no_candidates now jobs e = rw e

  abbrev PopOutcome : Config → ℕ → Option ℕ → ℕ → Store P R → Type 0
  PopOutcome c now visibility uuid s =
      (NothingReady now s.jobs × (pop c now visibility uuid s ≡ (none, s)))
      ⊎ ((id : Text) × (r : JobRecord P R) × IsFirstReady now s.jobs id r
          × (let r' = leased now uuid (now + get_or c.default_visibility_timeout_ms visibility) r in
              pop c now visibility uuid s
              ≡ (some (to_job id r'), record s { jobs = upsert id r' s.jobs })))

  pop_from :
      (c : Config) (now : ℕ) (visibility : Option ℕ) (uuid : ℕ) (s : Store P R)
      → IsTable s.jobs
      → (fs : Jobs P R) → filtered now s.jobs ≡ fs
      → PopOutcome c now visibility uuid s
  unfolding pop
  pop_from c now visibility uuid s table [] e =
      inl (none_ready now s.jobs e, rw (no_candidates now s.jobs e) refl)
  pop_from c now visibility uuid s table (x ∷ xs) e =
      let (h, t, found, first) = first_ready now s.jobs x xs table e in
      inr (h.0, h.1, first, rw (found, first.stored, ready_claimable now _ _ h.1 first.ready) refl)

  -- On a table where each row is the row of its key, an undisturbed `pop` takes the ready job that
  -- sorts first by priority, time and creation, and leases it; it takes none, and changes nothing,
  -- only where no job is ready.
  pub pop_takes_first :
      (c : Config) (now : ℕ) (visibility : Option ℕ) (uuid : ℕ) (s : Store P R)
      → IsTable s.jobs
      → (NothingReady now s.jobs × (pop c now visibility uuid s ≡ (none, s)))
        ⊎ ((id : Text) × (r : JobRecord P R) × IsFirstReady now s.jobs id r
            × (let r' =
                  leased now uuid (now + get_or c.default_visibility_timeout_ms visibility) r in
                pop c now visibility uuid s
                ≡ (some (to_job id r'), record s { jobs = upsert id r' s.jobs })))
  pop_takes_first c now visibility uuid s table =
      pop_from c now visibility uuid s table (filtered now s.jobs) refl
