-- ===== src/Queue/Worker/Waits.antt =====
-- What holds while `close` of src/queue/worker.ts waits.
use kvdb_nodejs.Prelude.{
  ◌≡◌, inl, inr, Bool-cases, refl, sym, true, false, List, [], ◌∷◌, ◌++◌, Text, text_keys, arith,
  All, ◌==◌, ==_self, ==_iff, ◌∙◌,
}
use mathlib.Core.Path.{subst}
use mathlib.Core.Bool.{false≢true}
use kvdb_nodejs.Queue.Worker.{
  Loop, WorkerState, has_id, drop_id, Closing, not_closing, awaiting_loop, awaiting_jobs,
  finish_job,
}

-- A close that waits for jobs waits for all there are, and no loop is there to start another.
abbrev pub Waits : Closing → WorkerState → Type 0
Waits not_closing w = Unit
Waits awaiting_loop w = Unit
Waits (awaiting_jobs ids) w = (w.loops ≡ []) × All (λ id. has_id id ids ≡ true) w.promises

has_id-All :
    (P : Text → Type 0) (id : Text) (ids : List Text) → All P ids → has_id id ids ≡ true → P id
unfolding has_id
has_id-All P id [] h e = absurd (false≢true e)
has_id-All P id (x ∷ xs) h e = elim (Bool-cases (x == id)) [
  | inl y ↦ subst P ((==_iff x id).0 y) h.0
  | inr n ↦ has_id-All P id xs h.1 (rw n at e)
]

All-mono :
    (P Q : Text → Type 0) (ids : List Text) → ((id : Text) → P id → Q id) → All P ids → All Q ids
All-mono P Q [] f h = tt
All-mono P Q (x ∷ xs) f h = (f x h.0, All-mono P Q xs f h.1)

has_id-later : (x id : Text) (ids : List Text) → has_id id ids ≡ true → has_id id (x ∷ ids) ≡ true
unfolding has_id
has_id-later x id ids h = ground (arith, h)

pub All-has_id : (ids : List Text) → All (λ id. has_id id ids ≡ true) ids
unfolding has_id
All-has_id [] = tt
All-has_id (x ∷ xs) = (
  rw (==_self x) refl,
  All-mono (λ id. has_id id xs ≡ true) (λ id. has_id id (x ∷ xs) ≡ true) xs
      (λ id h. has_id-later x id xs h) (All-has_id xs),
)

All-drop_id : (P : Text → Type 0) (id : Text) (ids : List Text) → All P ids → All P (drop_id id ids)
unfolding drop_id
All-drop_id P id [] h = tt
All-drop_id P id (x ∷ xs) h = elim (Bool-cases (x == id)) [
  | inl y ↦ rw y (h.1)
  | inr n ↦ rw n (h.0, All-drop_id P id xs h.1)
]

-- Of jobs that were all waited for, and whose promises are gone, none is left.
pub none_left :
    (promises ids : List Text)
    → All (λ id. has_id id ids ≡ true) promises
    → All (λ id. has_id id promises ≡ false) ids
    → promises ≡ []
unfolding has_id
none_left [] ids h gone = refl
none_left (p ∷ ps) ids h gone =
    let out : has_id p (p ∷ ps) ≡ false =
      has_id-All (λ id. has_id id (p ∷ ps) ≡ false) p ids gone h.0 in
    absurd (false≢true (sym (rw (==_self p) at out)))

no_loop : (before after : List Loop) (l : Loop) → before ++ (l ∷ after) ≡ [] → ⊥
no_loop [] after l e = cc
no_loop (x ∷ before) after l e = cc

-- A worker with a loop does not wait for jobs.
pub busy-Waits :
    (closing : Closing) (w w' : WorkerState) (before after : List Loop) (l : Loop)
    → w.loops ≡ before ++ (l ∷ after)
    → Waits closing w
    → Waits closing w'
busy-Waits not_closing w w' before after l e h = tt
busy-Waits awaiting_loop w w' before after l e h = tt
busy-Waits (awaiting_jobs ids) w w' before after l e h =
    absurd (no_loop before after l (sym e ∙ h.0))

pub same-Waits :
    (closing : Closing) (w w' : WorkerState)
    → w'.loops ≡ w.loops
    → w'.promises ≡ w.promises
    → Waits closing w
    → Waits closing w'
same-Waits not_closing w w' l p h = tt
same-Waits awaiting_loop w w' l p h = tt
same-Waits (awaiting_jobs ids) w w' l p h = (l ∙ h.0, rw p h.1)

pub finish-Waits :
    (closing : Closing) (id : Text) (w : WorkerState)
    → Waits closing w
    → Waits closing (finish_job id w)
unfolding finish_job
finish-Waits not_closing id w h = tt
finish-Waits awaiting_loop id w h = tt
finish-Waits (awaiting_jobs ids) id w h =
    (h.0, All-drop_id (λ id. has_id id ids ≡ true) id w.promises h.1)
