-- ===== src/Batcher/Wedge.antt =====
-- src/core/batcher.ts: a clear in the middle of a flight.
use kvdb_nodejs.Prelude.{
  leb_no, eqb_yes, ℕ, ◌<◌, ◌≡◌, refl, ◌∙◌, ap, Bool, true, false, List, [], ◌∷◌, map, Option, none,
  if◌then◌else◌,
}
use kvdb_nodejs.Core.Failure.{Failure, Result, ok}
use kvdb_nodejs.Batcher.{Key, Flight, idle, writing, spent, Batcher, pending_count}
use kvdb_nodejs.Batcher.Flush.{
  flush_round, execute_flush, finish_flush, follow_up, land, check_flush_conditions, is_idle, clear,
  flush_loop,
}
use kvdb_nodejs.Batcher.Barrier.{landed, finish-landed}

if_same {ℓ} : {A : Type ℓ} (b : Bool) (a : A) → (if b then a else a) ≡ a
if_same true a = refl
if_same false a = refl

module _ {V C : Type 0} where
  -- A flush that found nothing to do while it had calls to wait for is waited for again and again.
  loop-spent :
      (target : ℕ) (answers : List (Key → Bool)) (b : Batcher V C)
      → b.active ≡ spent
      → b.completed_seq < target
      → flush_loop target (map ok answers) b ≡ none
  unfolding flush_loop flush_round finish_flush
  loop-spent target [] b e behind = rw (leb_no _ _ behind) refl
  loop-spent target (d ∷ answers) b e behind =
      let stays : flush_round b ≡ b = ap (λ a. if is_idle a then execute_flush b else b) e in
      let same : (finish_flush (ok d) (flush_round b)).1 ≡ b =
        ap (λ x. (finish_flush (ok d) x).1) stays ∙ ap (λ a. (land (ok d) b a).1) e in
      rw (leb_no _ _ behind)
        (ap (λ x. flush_loop target (map ok answers) x) same ∙ loop-spent target answers b e behind)

  loop-wedged :
      (target : ℕ) (answers : List (Key → Bool)) (b : Batcher V C)
      → b.active ≡ idle
      → pending_count b ≡ 0
      → b.completed_seq < target
      → flush_loop target (map ok answers) b ≡ none
  unfolding flush_loop flush_round execute_flush finish_flush
  loop-wedged target [] b off empty behind = rw (leb_no _ _ behind) refl
  loop-wedged target (d ∷ answers) b off empty behind =
      let started : flush_round b ≡ record b { active = spent } =
        ap (λ a. if is_idle a then execute_flush b else b) off ∙ rw (execute_flush, empty) refl in
      rw (leb_no _ _ behind) (
        ap (λ x. flush_loop target (map ok answers) (finish_flush (ok d) x).1) started
        ∙ loop-spent target answers (record b { active = spent }) refl behind)

  cleared-empty : (e : Option Failure) (b : Batcher V C) → pending_count (clear e b).1 ≡ 0
  unfolding clear pending_count
  cleared-empty e b = if_same b.options.coalesce 0

  -- Where the buffer is cleared while a flight is under way that took off before the last call, and
  -- the flight lands, the loop of a later `flush` does not end, whatever number of results it is given.
  pub clear_wedges :
      (e : Option Failure) (r : Result (Key → Bool)) (answers : List (Key → Bool)) (b : Batcher V C)
      (f : Flight V C)
      → b.active ≡ writing f
      → f.batch_seq < b.current_seq
      → (let landed' = (finish_flush r (clear e b).1).1 in
          flush_loop landed'.current_seq (map ok answers) landed' ≡ none)
  unfolding clear landed follow_up pending_count
  clear_wedges e r answers b f flying behind =
      let cleared = (clear e b).1 in
      let rest : pending_count (landed cleared f) ≡ 0 = cleared-empty e b in
      let stays : (finish_flush r cleared).1 ≡ landed cleared f =
        finish-landed r cleared f flying
        ∙ ap (λ t. if t then landed cleared f else check_flush_conditions (landed cleared f))
            (eqb_yes _ rest) in
      ap (λ x. flush_loop x.current_seq (map ok answers) x) stays
      ∙ loop-wedged b.current_seq answers (landed cleared f) refl rest behind
