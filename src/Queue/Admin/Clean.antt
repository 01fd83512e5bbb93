-- ===== src/Queue/Admin/Clean.antt =====
-- src/queue/queue.ts: the rounds of `clean` and the rows that they leave.
use kvdb_nodejs.Prelude.{
  lt_of_ltb, ℕ, zero, suc, ◌+◌, ◌≤◌, ◌<◌, ◌≡◌, refl, sym, ◌∙◌, inl, inr, Bool, true, false, List,
  [], ◌∷◌, none, some, Text, arith, text_keys, find_row, find_row-remove, remove, length, take,
  filter, All, All-map, All-remove, All-filter, length-remove, length-remove_found, is_some, eqb,
  ltb, Bool-cases, ==_self, ==_iff, ==_of_ne, some_injective, take_all, All-take, All-find_row, ◌↔◌,
  ap,
}
use mathlib.Core.Bool.{false≢true}
use kvdb_nodejs.Queue.Job.{JobState, JobRecord, Jobs, Store}
use kvdb_nodejs.Queue.Pop.Order.{IsTable}
use kvdb_nodejs.Queue.Admin.{is_old, old_rows, delete_rows, clean_loop, clean}

empty_of_length {ℓ} : {A : Type ℓ} (xs : List A) → length xs ≡ 0 → xs ≡ []
empty_of_length [] e = refl
empty_of_length (x ∷ xs) e = absurd (omega (arith, e))

module _ {P R : Type 0} where
  IsTable-remove : (k : Text) (jobs : Jobs P R) → IsTable jobs → IsTable (remove k jobs)
  IsTable-remove k jobs table =
      All-map (remove k jobs)
        (λ row (stored, other).
          rw (find_row-remove k row.0 jobs) (ground (arith, stored, other, ==_iff k row.0)))
        (All-remove _ k jobs table)

  IsTable-delete_rows : (rows jobs : Jobs P R) → IsTable jobs → IsTable (delete_rows rows jobs).1
  unfolding delete_rows
  IsTable-delete_rows [] jobs table = table
  IsTable-delete_rows ((k, r) ∷ rows) jobs table =
      IsTable-delete_rows rows (remove k jobs) (IsTable-remove k jobs table)

  length-delete_rows : (rows jobs : Jobs P R) → length (delete_rows rows jobs).1 ≤ length jobs
  unfolding delete_rows
  length-delete_rows [] jobs = omega arith
  length-delete_rows ((k, r) ∷ rows) jobs =
      omega (arith, length-delete_rows rows (remove k jobs), length-remove k jobs)

  length-delete_rows_found :
      (rows jobs : Jobs P R)
      → All (λ (row : Text × JobRecord P R). find_row row.0 jobs ≡ some row.1) rows
      → 0 < length rows
      → length (delete_rows rows jobs).1 < length jobs
  unfolding delete_rows
  length-delete_rows_found [] jobs h p = absurd (omega arith)
  length-delete_rows_found ((k, r) ∷ rows) jobs h p =
      omega
        (arith, length-delete_rows rows (remove k jobs), length-remove_found k jobs (rw h.0 refl))

  -- A row of another key stays.
  find_row-delete_rows :
      (rows jobs : Jobs P R) (id : Text)
      → All (λ (row : Text × JobRecord P R). Path Text row.0 id → ⊥) rows
      → find_row id (delete_rows rows jobs).1 ≡ find_row id jobs
  unfolding delete_rows
  find_row-delete_rows [] jobs id h = refl
  find_row-delete_rows ((k, r) ∷ rows) jobs id h =
      find_row-delete_rows rows (remove k jobs) id h.1
      ∙ rw (find_row-remove k id jobs, ==_of_ne k id h.0) refl

  -- No row is new.
  find_row_of_delete_rows :
      (rows jobs : Jobs P R) (id : Text) (r : JobRecord P R)
      → find_row id (delete_rows rows jobs).1 ≡ some r
      → find_row id jobs ≡ some r
  unfolding delete_rows
  find_row_of_delete_rows [] jobs id r e = e
  find_row_of_delete_rows ((k, x) ∷ rows) jobs id r e =
      let found =
        rw (find_row-remove k id jobs) at (find_row_of_delete_rows rows (remove k jobs) id r e) in
      ground (arith, found)

  -- Rows whose keys are all deleted where `p` holds.
  delete_rows-clears :
      (p : JobRecord P R → Bool) (rows jobs : Jobs P R)
      → All
          (λ (row : Text × JobRecord P R). p row.1 ≡ true → is_some (find_row row.0 rows) ≡ true)
          jobs
      → All (λ (row : Text × JobRecord P R). p row.1 ≡ false) (delete_rows rows jobs).1
  unfolding delete_rows find_row
  delete_rows-clears p [] jobs h = All-map jobs (λ row f. ground (arith, f)) h
  delete_rows-clears p ((k, r) ∷ rows) jobs h = delete_rows-clears p rows (remove k jobs) (
      All-map (remove k jobs) (λ row (f, other) y. ground (arith, f y, other, ==_iff k row.0))
        (All-remove _ k jobs h))

  passing_found :
      (p : JobRecord P R → Bool) (jobs : Jobs P R)
      → All
          (λ (row : Text × JobRecord P R).
            p row.1 ≡ true → is_some (find_row row.0 (filter (λ x. p x.1) jobs)) ≡ true)
          jobs
  unfolding find_row filter
  passing_found p [] = tt
  passing_found p ((k, r) ∷ jobs) = (
    λ y. ground (arith, y, ==_self k),
    All-map jobs (λ row f y. ground (arith, f y)) (passing_found p jobs),
  )

module _ {P R : Type 0} (states : List JobState) (older now : ℕ) where
  abbrev old : JobRecord P R → Bool
  old r = is_old states older now r

  -- Exactly the rows that are not old are left.
  abbrev pub Cleaned : Jobs P R → Jobs P R → Type 0
  Cleaned jobs jobs' =
      (id : Text) (r : JobRecord P R)
      → (find_row id jobs' ≡ some r)
        ↔ ((find_row id jobs ≡ some r) × (is_old states older now r ≡ false))

  batch_rows :
      (n : ℕ) (jobs : Jobs P R)
      → IsTable jobs
      → All
          (λ (row : Text × JobRecord P R). (find_row row.0 jobs ≡ some row.1) × (old row.1 ≡ true))
          (take n (old_rows states older now jobs))
  unfolding old_rows
  batch_rows n jobs table = All-take _ n (filter (λ row. old row.1) jobs) (
      All-filter (λ (row : Text × JobRecord P R). find_row row.0 jobs ≡ some row.1)
        (λ row. old row.1) jobs table)

  -- Deleting a batch keeps each row that is not old.
  batch_keeps :
      (n : ℕ) (jobs : Jobs P R) (id : Text) (r : JobRecord P R)
      → IsTable jobs
      → find_row id jobs ≡ some r
      → old r ≡ false
      → find_row id (delete_rows (take n (old_rows states older now jobs)) jobs).1 ≡ some r
  batch_keeps n jobs id r table stored young =
      find_row-delete_rows (take n (old_rows states older now jobs)) jobs id (
        All-map (take n (old_rows states older now jobs))
          (λ row (found, aged) same.
            let eq : some row.1 ≡ some r = sym found ∙ rw same stored in
            false≢true (sym young ∙ ap (λ x. old x) (sym (some_injective eq)) ∙ aged))
          (batch_rows n jobs table))
      ∙ stored

  -- A batch that is not full leaves no old row.
  batch_clears :
      (n : ℕ) (jobs : Jobs P R)
      → length (take n (old_rows states older now jobs)) < n
      → All
          (λ (row : Text × JobRecord P R). old row.1 ≡ false)
          (delete_rows (take n (old_rows states older now jobs)) jobs).1
  unfolding old_rows
  batch_clears n jobs h = rw (take_all n (old_rows states older now jobs) h) (
      delete_rows-clears (λ r. old r) (filter (λ row. old row.1) jobs) jobs
        (passing_found (λ r. old r) jobs))

  last_batch :
      (n : ℕ) (jobs : Jobs P R)
      → IsTable jobs
      → length (take n (old_rows states older now jobs)) < n
      → Cleaned jobs (delete_rows (take n (old_rows states older now jobs)) jobs).1
  last_batch n jobs table h id r = (
    λ e. (
      find_row_of_delete_rows (take n (old_rows states older now jobs)) jobs id r e,
      All-find_row (λ x. old x ≡ false) id _ r (batch_clears n jobs h) e,
    ),
    λ (stored, young). batch_keeps n jobs id r table stored young,
  )

  Cleaned-step :
      (n : ℕ) (jobs jobs' : Jobs P R)
      → IsTable jobs
      → Cleaned (delete_rows (take n (old_rows states older now jobs)) jobs).1 jobs'
      → Cleaned jobs jobs'
  Cleaned-step n jobs jobs' table h id r = (
    λ e.
        let (stored, young) = (h id r).0 e in
        (find_row_of_delete_rows (take n (old_rows states older now jobs)) jobs id r stored, young),
    λ (stored, young). (h id r).1 (batch_keeps n jobs id r table stored young, young),
  )

  no_batch :
      (n : ℕ) (jobs : Jobs P R)
      → IsTable jobs
      → length (take n (old_rows states older now jobs)) ≡ 0
      → 0 < n
      → Cleaned jobs jobs
  unfolding delete_rows
  no_batch n jobs table e h =
      rw (empty_of_length (take n (old_rows states older now jobs)) e) at
        (last_batch n jobs table (omega (arith, e, h)))

  fewer :
      (n : ℕ) (jobs : Jobs P R)
      → IsTable jobs
      → 0 < length (take n (old_rows states older now jobs))
      → length (delete_rows (take n (old_rows states older now jobs)) jobs).1 < length jobs
  fewer n jobs table h =
      length-delete_rows_found (take n (old_rows states older now jobs)) jobs
        (All-map (take n (old_rows states older now jobs)) (λ row b. b.0) (batch_rows n jobs table))
        h

  clean_loop_ends :
      (fuel total : ℕ) (jobs : Jobs P R)
      → IsTable jobs
      → length jobs < fuel
      → (n : ℕ) × (jobs' : Jobs P R) × (clean_loop fuel states older now none total jobs
          ≡ some (n, jobs'))
        × Cleaned jobs jobs'
  unfolding clean_loop
  clean_loop_ends zero total jobs table h = absurd (omega arith)
  clean_loop_ends (suc fuel) total jobs table h =
      elim (Bool-cases (eqb (length (take 1000 (old_rows states older now jobs))) 0)) [
        | inl e ↦
            (total, jobs, rw e refl, no_batch 1000 jobs table (ground (arith, e)) (omega arith))
        | inr n ↦
            elim (Bool-cases (ltb (length (take 1000 (old_rows states older now jobs))) 1000)) [
              | inl e ↦ (
                total + (delete_rows (take 1000 (old_rows states older now jobs)) jobs).0,
                (delete_rows (take 1000 (old_rows states older now jobs)) jobs).1,
                rw (n, e) refl,
                last_batch 1000 jobs table (lt_of_ltb _ 1000 e),
              )
              | inr m ↦
                  let (k, jobs', e, cleaned) =
                    clean_loop_ends fuel
                      (total + (delete_rows (take 1000 (old_rows states older now jobs)) jobs).0)
                      (delete_rows (take 1000 (old_rows states older now jobs)) jobs).1
                      (IsTable-delete_rows (take 1000 (old_rows states older now jobs)) jobs table)
                      (omega (arith, h, fewer 1000 jobs table (ground (arith, n)))) in
                  (k, jobs', rw (n, m) e, Cleaned-step 1000 jobs jobs' table cleaned)
            ]
      ]

  -- With no limit, on a table where each row is the row of its key, `clean` ends within one round
  -- more than there are jobs, and leaves exactly the rows that are not in a target state and that old.
  pub clean_exact :
      (fuel : ℕ) (s : Store P R)
      → IsTable s.jobs
      → length s.jobs < fuel
      → (n : ℕ) × (jobs' : Jobs P R) × (clean fuel now (some older) (some states) none s
          ≡ some (n, record s { jobs = jobs' }))
        × ((id : Text) (r : JobRecord P R)
            → (find_row id jobs' ≡ some r)
              ↔ ((find_row id s.jobs ≡ some r) × (is_old states older now r ≡ false)))
  unfolding clean
  clean_exact fuel s table h =
      let (n, jobs', e, cleaned) = clean_loop_ends fuel 0 s.jobs table h in
      (n, jobs', rw (clean, e) refl, cleaned)
