-- ===== src/Queue/Worker/Bound.antt =====
-- A worker runs no more jobs side by side than its option says.
use kvdb_nodejs.Prelude.{
  ℕ, zero, suc, ◌+◌, ◌≤◌, ◌≡◌, inl, inr, Bool-cases, refl, sym, ap, Bool, true, false, List, [],
  ◌∷◌, ◌++◌, Option, none, some, Text, text_keys, length, length-append, arith, All,
}
use kvdb_nodejs.Queue.Worker.{
  Loop, at_top, filling, popping, WorkerState, Popped, a_job, no_job, pop_failed, has_id, set_id,
  drop_id, new_worker, start, pause, resume, close, close_awaits, close_ends, not_closing,
  awaiting_loop, awaiting_jobs, top_turn, loop_turn, spawn_job, finish_job, after_pop, popped_by,
  with_loop,
}
use kvdb_nodejs.Queue.Worker.Waits.{
  Waits, All-has_id, none_left, busy-Waits, same-Waits, finish-Waits,
}

-- The popped job is not one that the worker runs already.
abbrev pub Fresh : Popped → List Text → Type 0
Fresh (a_job id) active = has_id id active ≡ false
Fresh no_job active = Unit
Fresh pop_failed active = Unit

-- The steps of a worker: its calls, the turns of its loops, answers of `pop`, and jobs that end. It
-- is started where no loop of an earlier start is left and no close is under way, and pops no job that it
-- runs already. A close goes on when the loop has returned, and ends when none of the promises that it
-- then took is left.
pub data Step (concurrency : ℕ) : WorkerState → WorkerState → Type 0 where
  started :
      (w : WorkerState) → w.loops ≡ [] → w.closing ≡ not_closing → Step concurrency w (start w)
  already : (w : WorkerState) → w.is_running ≡ true → Step concurrency w (start w)
  paused : (w : WorkerState) → Step concurrency w (pause w)
  resumed : (w : WorkerState) → Step concurrency w (resume w)
  closed : (w : WorkerState) → Step concurrency w (close w)
  close_awaited :
      (w : WorkerState)
      → w.closing ≡ awaiting_loop
      → w.loops ≡ []
      → Step concurrency w (close_awaits w)
  close_ended :
      (w : WorkerState) (ids : List Text)
      → w.closing ≡ awaiting_jobs ids
      → All (λ id. has_id id w.promises ≡ false) ids
      → Step concurrency w (close_ends w)
  turned :
      (w : WorkerState) (before after : List Loop) (l : Loop)
      → w.loops ≡ before ++ (l ∷ after)
      → Step concurrency w (record w { loops = with_loop before (loop_turn concurrency w l) after })
  answered :
      (w : WorkerState) (before after : List Loop) (turns : ℕ) (popped_any : Bool) (p : Popped)
      → w.loops ≡ before ++ (popping turns popped_any ∷ after)
      → Fresh p w.active
      → Step concurrency w
          (popped_by p (record w { loops = with_loop before (some (after_pop turns p)) after }))
  finished : (w : WorkerState) (id : Text) → Step concurrency w (finish_job id w)

pub data Reach (concurrency : ℕ) : WorkerState → Type 0 where
  new : Reach concurrency new_worker
  next : (w w' : WorkerState) → Reach concurrency w → Step concurrency w w' → Reach concurrency w'

-- The slots that a loop may still fill.
abbrev pub slots : Loop → ℕ
slots at_top = 0
slots (filling n popped) = n
slots (popping n popped) = suc n

abbrev pub reserved : List Loop → ℕ
reserved [] = 0
reserved (l ∷ ls) = slots l + reserved ls

abbrev pub Fits : ℕ → WorkerState → Type 0
Fits concurrency w =
    (length w.loops ≤ 1)
    × (length w.active + reserved w.loops ≤ concurrency)
    × (w.promises ≡ w.active)
    × Waits w.closing w

reserved-append : (xs ys : List Loop) → reserved (xs ++ ys) ≡ reserved xs + reserved ys
reserved-append [] ys = omega arith
reserved-append (x ∷ xs) ys = omega (arith, reserved-append xs ys)

reserved_none : (xs : List Loop) → length xs ≤ 0 → reserved xs ≡ 0
reserved_none [] h = refl
reserved_none (x ∷ xs) h = absurd (omega arith)

length-drop_id : (id : Text) (ids : List Text) → length (drop_id id ids) ≤ length ids
unfolding drop_id
length-drop_id id [] = omega arith
length-drop_id id (x ∷ xs) = ground (arith, length-drop_id id xs)

set_new : (id : Text) (ids : List Text) → has_id id ids ≡ false → set_id id ids ≡ ids ++ (id ∷ [])
unfolding set_id
set_new id ids h = rw h refl

abbrev pub slots_of : Option Loop → ℕ
slots_of none = 0
slots_of (some l) = slots l

-- The only loop, and what it leaves.
only_loop :
    (before after : List Loop) (l : Loop) (o : Option Loop)
    → length (before ++ (l ∷ after)) ≤ 1
    → (length (with_loop before o after) ≤ 1)
      × (reserved (with_loop before o after) ≡ slots_of o)
      × (slots l ≤ reserved (before ++ (l ∷ after)))
only_loop [] [] l none h = (omega arith, refl, omega arith)
only_loop [] [] l (some m) h = (omega arith, omega arith, omega arith)
only_loop [] (x ∷ xs) l o h = absurd (omega arith)
only_loop (x ∷ xs) after l o h = absurd (omega (arith, h, length-append xs (l ∷ after)))

top-slots :
    (concurrency : ℕ) (w : WorkerState)
    → length w.active ≤ concurrency
    → length w.active + slots_of (top_turn concurrency w) ≤ concurrency
unfolding top_turn
top-slots concurrency w h = ground arith

-- A turn takes no more slots than are free.
turn-slots :
    (concurrency : ℕ) (w : WorkerState) (l : Loop)
    → length w.active + slots l ≤ concurrency
    → length w.active + slots_of (loop_turn concurrency w l) ≤ concurrency
unfolding loop_turn
turn-slots concurrency w at_top h = top-slots concurrency w (omega (arith, h))
turn-slots concurrency w (filling zero popped_any) h = omega (arith, h)
turn-slots concurrency w (filling (suc n) popped_any) h = ground (arith, h)
turn-slots concurrency w (popping n popped_any) h = omega (arith, h)

answer-slots : (turns : ℕ) (p : Popped) → slots (after_pop turns p) ≤ turns
unfolding after_pop
answer-slots turns (a_job id) = omega arith
answer-slots turns no_job = omega arith
answer-slots turns pop_failed = omega arith

answer-Fits :
    (concurrency turns : ℕ) (p : Popped) (w : WorkerState)
    → Fresh p w.active
    → length w.loops ≤ 1
    → length w.active + suc turns ≤ concurrency
    → reserved w.loops ≤ turns
    → w.promises ≡ w.active
    → ((w' : WorkerState) → Waits w.closing w')
    → Fits concurrency (popped_by p w)
unfolding popped_by spawn_job
answer-Fits concurrency turns (a_job id) w fresh one fits left same waits =
    rw (set_new id w.active fresh) (
      one,
      omega (arith, fits, left, length-append w.active (id ∷ [])),
      ap (λ ids. ids ++ (id ∷ [])) same,
      waits _,
    )
answer-Fits concurrency turns no_job w fresh one fits left same waits =
    (one, omega arith, same, waits w)
answer-Fits concurrency turns pop_failed w fresh one fits left same waits =
    (one, omega arith, same, waits w)

Step-Fits :
    (concurrency : ℕ) (w w' : WorkerState)
    → Fits concurrency w
    → Step concurrency w w'
    → Fits concurrency w'
unfolding start pause resume close close_awaits close_ends finish_job
Step-Fits concurrency _ _ h (started w e rest) = elim (Bool-cases w.is_running) [
  | inl y ↦ rw y (h.0, h.1, h.2, same-Waits w.closing w _ refl refl h.3)
  | inr n ↦ rw n (rw (e, rest) (omega arith, omega (arith, h.1), h.2, tt))
]
Step-Fits concurrency _ _ h (already w e) =
    rw e (h.0, h.1, h.2, same-Waits w.closing w _ refl refl h.3)
Step-Fits concurrency _ _ h (paused w) = (h.0, h.1, h.2, same-Waits w.closing w _ refl refl h.3)
Step-Fits concurrency _ _ h (resumed w) = (h.0, h.1, h.2, same-Waits w.closing w _ refl refl h.3)
Step-Fits concurrency _ _ h (closed w) = elim (Bool-cases w.is_running) [
  | inl y ↦ rw y (h.0, h.1, h.2, tt)
  | inr n ↦ rw n (h.0, h.1, h.2, same-Waits w.closing w _ refl refl h.3)
]
Step-Fits concurrency _ _ (one, fits, same, waits) (close_awaited w e free) =
    (one, fits, same, (free, All-has_id w.promises))
Step-Fits concurrency _ _ (one, fits, same, waits) (close_ended w ids e gone) =
    (one, omega (arith, fits), none_left w.promises ids (rw e at waits).1 gone, tt)
Step-Fits concurrency _ _ (one, fits, same, waits) (turned w before after l e) =
    let (one', left, there) = only_loop before after l (loop_turn concurrency w l) (rw e at one) in
    let free = turn-slots concurrency w l (omega (arith, fits, there, ap reserved e)) in
    (one', omega (arith, free, left), same, busy-Waits w.closing w _ before after l e waits)
Step-Fits concurrency _ _ (one, fits, same, waits)
      (answered w before after turns popped_any p e fresh) =
    let (one', left, there) =
      only_loop before after (popping turns popped_any) (some (after_pop turns p)) (rw e at one) in
    answer-Fits concurrency turns p
      (record w { loops = with_loop before (some (after_pop turns p)) after }) fresh one'
      (omega (arith, fits, there, ap reserved e)) (omega (arith, left, answer-slots turns p)) same
      λ w'. busy-Waits w.closing w w' before after (popping turns popped_any) e waits
Step-Fits concurrency _ _ (one, fits, same, waits) (finished w id) = (
  one,
  omega (arith, length-drop_id id w.active),
  ap (drop_id id) same,
  finish-Waits w.closing id w waits,
)

Reach-Fits : (concurrency : ℕ) (w : WorkerState) → Reach concurrency w → Fits concurrency w
Reach-Fits concurrency _ new = (omega arith, omega arith, refl, tt)
Reach-Fits concurrency _ (next w w' r s) = Step-Fits concurrency w w' (Reach-Fits concurrency w r) s

-- a worker that is started only where no loop of an earlier start is left and no close is under way,
-- and that pops no job that it runs already, has no more jobs running than its concurrency at any time, those counted that its
-- loop may still start in its round, and its `active` counts them.
pub active-le-concurrency :
    (concurrency : ℕ) (w : WorkerState)
    → Reach concurrency w
    → (length w.promises + reserved w.loops ≤ concurrency) × (length w.active ≡ length w.promises)
active-le-concurrency concurrency w r =
    let (one, fits, same, waits) = Reach-Fits concurrency w r in
    (omega (arith, fits, ap length same), ap length (sym same))
