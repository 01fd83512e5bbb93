-- ===== src/Queue/Admin/Stats.antt =====
-- The counts of `getStats`.
use kvdb_nodejs.Prelude.{ℕ, ◌+◌, ◌≡◌, refl, [], ◌∷◌, Text, arith, length, filter, if◌then◌else◌}
use kvdb_nodejs.Queue.Job.{
  JobState, waiting, active, delayed, completed, failed, JobRecord, Jobs, Store,
}
use kvdb_nodejs.Queue.Admin.{get_stats, in_state, same_state}

-- One row more in its own state, none more in another.
abbrev one_if : JobState → JobState → ℕ
unfolding same_state
one_if a b = if same_state a b then 1 else 0

one_place :
    (a : JobState)
    → one_if a waiting + one_if a active + one_if a delayed + one_if a completed + one_if a failed
      ≡ 1
unfolding one_if
one_place waiting = refl
one_place active = refl
one_place delayed = refl
one_place completed = refl
one_place failed = refl

module _ {P R : Type 0} where
  length-in_state :
      (state : JobState) (row : Text × JobRecord P R) (jobs : Jobs P R)
      → length (in_state state (row ∷ jobs))
        ≡ one_if row.1.columns.state state + length (in_state state jobs)
  unfolding in_state filter one_if
  length-in_state state row jobs = ground arith

  counts_add_up :
      (jobs : Jobs P R)
      → length (in_state waiting jobs)
          + length (in_state active jobs)
          + length (in_state delayed jobs)
          + length (in_state completed jobs)
          + length (in_state failed jobs)
        ≡ length jobs
  unfolding in_state filter
  counts_add_up [] = refl
  counts_add_up (row ∷ jobs) =
      rw
        (
          length-in_state waiting row jobs,
          length-in_state active row jobs,
          length-in_state delayed row jobs,
          length-in_state completed row jobs,
          length-in_state failed row jobs,
        )
        (omega (arith, one_place row.1.columns.state, counts_add_up jobs))

  -- The total is the number of jobs: every job is counted in exactly one state.
  pub get_stats-total : (s : Store P R) → (get_stats s).total ≡ length s.jobs
  unfolding get_stats
  get_stats-total s = counts_add_up s.jobs
