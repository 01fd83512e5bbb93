-- ===== src/Queue/Worker.antt =====
-- src/queue/worker.ts: a worker that polls the queue in a loop and runs jobs side by side. Timers,
-- heartbeats and listeners stay out; a loop that sleeps is at its top.
pub mod Waits
pub mod Bound
mod Tests
use kvdb_nodejs.Prelude.{
  ℕ, zero, suc, ◌-◌, ◌≡◌, refl, Bool, true, false, ◌&&◌, ◌||◌, not, List, [], ◌∷◌, ◌++◌, Option,
  none, some, Text, text_keys, ◌==◌, if◌then◌else◌, eqb, max, get_or, length,
}

-- Where a call of `dispatchLoop` is: at the top of the outer loop, at the top of the inner one with
-- the turns it has left and `poppedAny`, or in a call of `pop` with the turns left after it.
pub data Loop : Type 0 where
  at_top : Loop
  filling popping : ℕ → Bool → Loop

-- Where a call of `close` is: none runs, or it waits for the loop, or for the jobs that had not ended when
-- the loop returned. A second call returns at once.
pub data Closing : Type 0 where
  not_closing : Closing
  awaiting_loop : Closing
  awaiting_jobs : List Text → Closing

-- `active` are the keys of `activeJobs`, `promises` the jobs of `activePromises`, and `loops` the calls
-- of `dispatchLoop` that have not returned.
pub record WorkerState : Type 0 where
  pub is_running : Bool
  pub is_paused : Bool
  pub active : List Text
  pub promises : List Text
  pub loops : List Loop
  pub closing : Closing

-- What `pop` gives, and the events.
pub data Popped : Type 0 where
  a_job : Text → Popped
  no_job pop_failed : Popped

-- The constructor's bounds on the options.
unfoldable pub concurrency_of : Option ℕ → ℕ
concurrency_of concurrency = max 1 (get_or 1 concurrency)

unfoldable pub has_id : Text → List Text → Bool
has_id id [] = false
has_id id (x ∷ xs) = x == id || has_id id xs

-- `Map.prototype.set` on the keys
unfoldable pub set_id : Text → List Text → List Text
unfolding has_id
set_id id ids = if has_id id ids then ids else ids ++ (id ∷ [])

-- `Map.prototype.delete` on keys, which are listed once; also a promise of the job that ends.
unfoldable pub drop_id : Text → List Text → List Text
drop_id id [] = []
drop_id id (x ∷ xs) = let rest = drop_id id xs in if x == id then xs else x ∷ rest

abbrev pub new_worker : WorkerState
new_worker = record {
  is_running = false;
  is_paused = false;
  active = [];
  promises = [];
  loops = [];
  closing = not_closing;
}

unfoldable pub start : WorkerState → WorkerState
start w =
    if w.is_running
    then w
    else record w { is_running = true; is_paused = false; loops = w.loops ++ (at_top ∷ []) }

unfoldable pub pause : WorkerState → WorkerState
pause w = record w { is_paused = true }

unfoldable pub resume : WorkerState → WorkerState
resume w = record w { is_paused = false }

-- `close` up to its wait for the loop, the list of promises that it makes then, and what it does when all
-- of them are settled.
unfoldable pub close : WorkerState → WorkerState
close w =
    if w.is_running
    then record w { is_running = false; is_paused = false; closing = awaiting_loop }
    else w

unfoldable pub close_awaits : WorkerState → WorkerState
close_awaits w = record w { closing = awaiting_jobs w.promises }

unfoldable pub close_ends : WorkerState → WorkerState
close_ends w = record w { active = []; closing = not_closing }

-- One turn at the top of a loop; none where the loop returns.
unfoldable pub top_turn : ℕ → WorkerState → Option Loop
top_turn concurrency w =
    if not w.is_running
    then none
    else if w.is_paused
    then some at_top
    else if eqb (concurrency - length w.active) 0
    then some at_top
    else some (filling (concurrency - length w.active) false)

unfoldable pub loop_turn : ℕ → WorkerState → Loop → Option Loop
unfolding top_turn
loop_turn concurrency w at_top = top_turn concurrency w
loop_turn concurrency w (filling zero popped_any) = some at_top
loop_turn concurrency w (filling (suc turns) popped_any) =
    if not w.is_running || w.is_paused then some at_top else some (popping turns popped_any)
loop_turn concurrency w (popping turns popped_any) = some (popping turns popped_any)

unfoldable pub spawn_job : Text → WorkerState → WorkerState
unfolding set_id
spawn_job id w = record w { active = set_id id w.active; promises = w.promises ++ (id ∷ []) }

-- What a job does when it has run.
unfoldable pub finish_job : Text → WorkerState → WorkerState
finish_job id w = record w { active = drop_id id w.active; promises = drop_id id w.promises }

-- `pop` has answered: the loop goes on.
unfoldable pub after_pop : ℕ → Popped → Loop
after_pop turns (a_job id) = filling turns true
after_pop turns no_job = at_top
after_pop turns pop_failed = at_top

unfoldable pub popped_by : Popped → WorkerState → WorkerState
unfolding spawn_job
popped_by (a_job id) w = spawn_job id w
popped_by no_job w = w
popped_by pop_failed w = w

-- `poppedAny` and no active job at the end of a round decide on the event `drained`.
unfoldable pub is_drained : Bool → WorkerState → Bool
is_drained popped_any w = not popped_any && eqb (length w.active) 0

-- A loop with one of its turns taken: it is gone where it returned.
abbrev pub with_loop : List Loop → Option Loop → List Loop → List Loop
with_loop before none after = before ++ after
with_loop before (some l) after = before ++ (l ∷ after)

unfoldable pub worker_runs : Unit {0}
unfolding has_id set_id drop_id start pause resume close close_awaits close_ends top_turn loop_turn
    spawn_job finish_job after_pop popped_by is_drained
worker_runs = tt
