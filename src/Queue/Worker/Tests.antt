-- ===== src/Queue/Worker/Tests.antt =====
-- Runs of a worker.
use kvdb_nodejs.Prelude.{◌≤◌, ◌≡◌, refl, true, false, [], ◌∷◌, some, Text, text_beq, codes, length}
use kvdb_nodejs.Queue.Worker.{
  at_top, filling, popping, WorkerState, a_job, new_worker, start, pause, resume, close,
  close_awaits, close_ends, not_closing, loop_turn, spawn_job, finish_job, is_drained, worker_runs,
}
use kvdb_nodejs.Queue.Worker.Bound.{
  started, turned, answered, Reach, new, next, active-le-concurrency,
}

abbrev mail : Text
mail = codes "mail"

abbrev two_slots : WorkerState
two_slots = record {
  is_running = true;
  is_paused = false;
  active = [];
  promises = [];
  loops = filling 2 false ∷ [];
  closing = not_closing;
}

abbrev one_job : WorkerState
one_job = record {
  is_running = true;
  is_paused = false;
  active = mail ∷ [];
  promises = mail ∷ [];
  loops = filling 1 true ∷ [];
  closing = not_closing;
}

one_job-Reach : Reach 2 one_job
unfolding worker_runs
one_job-Reach =
    next _ one_job
      (next _ (record two_slots { loops = popping 1 false ∷ [] })
        (next _ two_slots (next new_worker _ new (started new_worker refl refl))
          (turned _ [] [] at_top refl))
        (turned two_slots [] [] (filling 2 false) refl))
      (answered (record two_slots { loops = popping 1 false ∷ [] }) [] [] 1 false (a_job mail) refl
        refl)

active-le-concurrency_example : (2 ≤ 2) × (length one_job.active ≡ 1)
active-le-concurrency_example = active-le-concurrency 2 one_job one_job-Reach

-- A worker that is closed and started again while its loop sleeps has two loops, and each counts the
-- free slots on its own.
restarted_loops : (start (close (start new_worker))).loops ≡ at_top ∷ at_top ∷ []
unfolding worker_runs
restarted_loops = refl

-- A job that the same worker pops again after its lease counts once and runs twice.
popped_twice :
    (length (spawn_job mail (spawn_job mail new_worker)).active ≡ 1)
    × (length (spawn_job mail (spawn_job mail new_worker)).promises ≡ 2)
unfolding worker_runs text_beq
popped_twice = (refl, refl)

-- A paused loop stays at its top, and a job that ends leaves nothing behind.
paused_turn : loop_turn 2 (pause (start new_worker)) at_top ≡ some at_top
unfolding worker_runs
paused_turn = refl

-- A worker that is started again while its close waits for a job counts only what it popped before.
started_in_close :
    (let again = spawn_job (codes "news") (start (close_awaits (close one_job))) in
      (length (close_ends (finish_job mail again)).active ≡ 0)
      × (length (close_ends (finish_job mail again)).promises ≡ 1))
unfolding worker_runs text_beq
started_in_close = (refl, refl)

finished_job : (close_ends (finish_job mail one_job)).promises ≡ []
unfolding worker_runs text_beq
finished_job = refl

drained_round : is_drained false (resume (pause two_slots)) ≡ true
unfolding worker_runs
drained_round = refl
