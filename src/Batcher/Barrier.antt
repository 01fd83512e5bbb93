-- ===== src/Batcher/Barrier.antt =====
-- src/core/batcher.ts: the rounds of the loop of `flush`.
use kvdb_nodejs.Prelude.{
  leb_no, leb_yes, eqb_no, ℕ, ◌≤◌, ◌<◌, ◌≡◌, refl, sym, ◌∙◌, ap, ◌⊎◌, inl, inr, Bool, true, false,
  List, [], ◌∷◌, Option, some, arith, leb, ltb, eqb, if◌then◌else◌, Bool-cases,
}
use mathlib.Core.Path.{subst}
use kvdb_nodejs.Core.Failure.{Failure, Result, ok, err}
use kvdb_nodejs.Batcher.{Key, Flight, Active, idle, writing, spent, Batcher, pending_count}
use kvdb_nodejs.Batcher.Flush.{
  flush, flush_round, execute_flush, finish_flush, follow_up, land, check_flush_conditions, is_idle,
  flush_loop,
}

err_ne_ok : {A : Type 0} {e : Failure} {a : A} → err e ≡ ok a → ⊥
err_ne_ok e = cc

module _ {V C : Type 0} where
  abbrev pub Tracks : Active V C → Batcher V C → Type 0
  Tracks idle b = b.completed_seq < b.current_seq → 0 < pending_count b
  Tracks (writing f) b = f.batch_seq < b.current_seq → 0 < pending_count b
  Tracks spent b = ⊥

  -- Calls that are not written are in the buffer or in flight.
  abbrev pub IsTracked : Batcher V C → Type 0
  IsTracked b = Tracks b.active b

  SameCounts : Batcher V C → Batcher V C → Type 0
  SameCounts b b' = (b'.current_seq ≡ b.current_seq) × (b'.completed_seq ≡ b.completed_seq)

  -- A flight with every call so far has taken off.
  abbrev Launched : Batcher V C → Batcher V C → Type 0
  Launched b b' =
      (b'.completed_seq ≡ b.completed_seq)
      × ((f : Flight V C) × (b'.active ≡ writing f) × (f.batch_seq ≡ b.current_seq))

  execute-Launched : (b : Batcher V C) → 0 < pending_count b → Launched b (execute_flush b)
  unfolding execute_flush
  execute-Launched b h = rw (execute_flush, eqb_no _ h) (refl, (_, refl, refl))

  round-idle :
      (b : Batcher V C) → b.active ≡ idle → 0 < pending_count b → Launched b (flush_round b)
  unfolding flush_round
  round-idle b off h =
      subst (λ b'. Launched b b') (sym (ap (λ t. if is_idle t then execute_flush b else b) off))
        (execute-Launched b h)

  pub round-writing : (b : Batcher V C) (f : Flight V C) → b.active ≡ writing f → flush_round b ≡ b
  unfolding flush_round
  round-writing b f e = ap (λ t. if is_idle t then execute_flush b else b) e

  -- Whichever branch is taken.
  if-completed :
      (n : ℕ) (c : Bool) (x y : Batcher V C)
      → x.completed_seq ≡ n
      → y.completed_seq ≡ n
      → (if c then x else y).completed_seq ≡ n
  if-completed n true x y p q = p
  if-completed n false x y p q = q

  check-completed : (b : Batcher V C) → (check_flush_conditions b).completed_seq ≡ b.completed_seq
  unfolding check_flush_conditions flush flush_round execute_flush
  check-completed b =
      let n = b.completed_seq in
      if-completed n (leb b.options.max_batch_size (pending_count b)) _ _
        (if-completed n (leb b.current_seq b.completed_seq) _ _ refl (
          if-completed n (is_idle b.active) _ _
            (if-completed n (eqb (pending_count b) 0) _ _ refl refl) refl))
        refl

  flush-round :
      (b : Batcher V C)
      → b.completed_seq < b.current_seq
      → flush b ≡ flush_round (record b { timer = false })
  unfolding flush
  flush-round b behind =
      ap (λ t. if t then record b { timer = false } else flush_round (record b { timer = false }))
        (leb_no _ _ behind)

  -- After a landing with calls left in the buffer: the next flight, or the timer.
  check-next :
      (b : Batcher V C)
      → b.active ≡ idle
      → b.completed_seq < b.current_seq
      → 0 < pending_count b
      → Launched b (check_flush_conditions b)
        ⊎ (check_flush_conditions b ≡ record b { timer = true })
  unfolding check_flush_conditions pending_count
  check-next b off behind h = elim (Bool-cases (leb b.options.max_batch_size (pending_count b))) [
    | inl y ↦
        let taken : check_flush_conditions b ≡ flush_round (record b { timer = false }) =
          ap (λ t. if t then flush b else record b { timer = true }) y ∙ flush-round b behind in
        inl
          (subst (λ b'. Launched b b') (sym taken) (round-idle (record b { timer = false }) off h))
    | inr n ↦ inr (ap (λ t. if t then flush b else record b { timer = true }) n)
  ]

  -- The buffer when the handler is done.
  unfoldable pub landed : Batcher V C → Flight V C → Batcher V C
  landed b f = record b { active = idle; completed_seq = f.batch_seq }

  pub finish-landed :
      (r : Result (Key → Bool)) (b : Batcher V C) (f : Flight V C)
      → b.active ≡ writing f
      → (finish_flush r b).1 ≡ follow_up (landed b f)
  unfolding finish_flush landed
  finish-landed r b f e = ap (λ a. (land r b a).1) e

  follow_up-completed : (b : Batcher V C) → (follow_up b).completed_seq ≡ b.completed_seq
  unfolding follow_up
  follow_up-completed b =
      if-completed b.completed_seq (eqb (pending_count b) 0) _ _ refl (check-completed b)

  finish-completed :
      (r : Result (Key → Bool)) (b : Batcher V C) (f : Flight V C)
      → b.active ≡ writing f
      → (finish_flush r b).1.completed_seq ≡ f.batch_seq
  unfolding landed
  finish-completed r b f e =
      ap (λ x. x.completed_seq) (finish-landed r b f e) ∙ follow_up-completed (landed b f)

  -- The loop has ended, and where it has not thrown, every call up to `target` is written.
  abbrev Covered : ℕ → Option (Result (Unit {0}) × Batcher V C) → Type 0
  Covered target out =
      (result : Result (Unit {0})) × (b : Batcher V C) × (out ≡ some (result, b))
      × (result ≡ ok tt → target ≤ b.completed_seq)

  loop-done :
      (target : ℕ) (results : List (Result (Key → Bool))) (b : Batcher V C)
      → target ≤ b.completed_seq
      → Covered target (flush_loop target results b)
  unfolding flush_loop
  loop-done target [] b h = (ok tt, b, rw (leb_yes _ _ h) refl, λ _. h)
  loop-done target (r ∷ results) b h = (ok tt, b, rw (leb_yes _ _ h) refl, λ _. h)

  loop-step :
      (target : ℕ) (r : Result (Key → Bool)) (results : List (Result (Key → Bool)))
      (b : Batcher V C)
      → b.completed_seq < target
      → Covered target (flush_loop target results (finish_flush r (flush_round b)).1)
      → Covered target (flush_loop target (r ∷ results) b)
  unfolding flush_loop
  loop-step target (err e) results b behind h = (
    err e,
    (finish_flush (err e) (flush_round b)).1,
    rw (leb_no _ _ behind) refl,
    λ f. absurd (err_ne_ok f),
  )
  loop-step target (ok d) results b behind (result, b', e, covers) =
      (result, b', rw (leb_no _ _ behind) e, covers)

  -- A round that launches everything covers it.
  loop-Launched :
      (r : Result (Key → Bool)) (results : List (Result (Key → Bool))) (b : Batcher V C)
      (target : ℕ)
      → b.completed_seq < target
      → (f : Flight V C) × ((flush_round b).active ≡ writing f) × (f.batch_seq ≡ target)
      → Covered target (flush_loop target (r ∷ results) b)
  loop-Launched r results b target behind (f, e, all) = loop-step target r results b behind (
      loop-done target results (finish_flush r (flush_round b)).1
        (omega (arith, finish-completed r (flush_round b) f e, all)))

  -- A flight with fewer calls lands, and the next one has the rest.
  loop-second :
      (r : Result (Key → Bool)) (b : Batcher V C)
      → b.active ≡ idle
      → b.completed_seq < b.current_seq
      → 0 < pending_count b
      → Covered b.current_seq (flush_loop b.current_seq (r ∷ []) (follow_up b))
  unfolding follow_up pending_count
  loop-second r b off behind h =
      let next : follow_up b ≡ check_flush_conditions b =
        ap (λ t. if t then b else check_flush_conditions b) (eqb_no _ h) in
      rw next (elim (check-next b off behind h) [
        | inl (same, (f, e, all)) ↦
            loop-Launched r [] (check_flush_conditions b) b.current_seq
              (omega (arith, same, behind))
              (f, ap (λ x. x.active) (round-writing (check_flush_conditions b) f e) ∙ e, all)
        | inr timed ↦ rw timed (
            loop-Launched r [] (record b { timer = true }) b.current_seq behind
              (round-idle (record b { timer = true }) off h).1)
      ])

  loop-from :
      (r r' : Result (Key → Bool)) (b : Batcher V C) (a : Active V C)
      → b.active ≡ a
      → Tracks a b
      → b.completed_seq < b.current_seq
      → Covered b.current_seq (flush_loop b.current_seq (r ∷ r' ∷ []) b)
  unfolding pending_count landed
  loop-from r r' b idle e tracked behind =
      loop-Launched r (r' ∷ []) b b.current_seq behind (round-idle b e (tracked behind)).1
  loop-from r r' b (writing f) e tracked behind = loop-step b.current_seq r (r' ∷ []) b behind (
      rw (round-writing b f e, finish-landed r b f e)
        (elim (Bool-cases (ltb f.batch_seq b.current_seq)) [
          | inl y ↦
              let some_left : 0 < pending_count b = tracked (ground (arith, y)) in
              loop-second r' (landed b f) refl (ground (arith, y)) some_left
          | inr n ↦
              loop-done b.current_seq (r' ∷ []) (follow_up (landed b f))
                (ground (arith, n, follow_up-completed (landed b f)))
        ]))
  loop-from r r' b spent e tracked behind = absurd tracked

  pub flush_ends :
      (r r' : Result (Key → Bool)) (b : Batcher V C)
      → IsTracked b
      → (result : Result (Unit {0})) × (b' : Batcher V C) × (flush_loop b.current_seq
            (r ∷ r' ∷ [])
            b
          ≡ some (result, b'))
        × (result ≡ ok tt → b.current_seq ≤ b'.completed_seq)
  flush_ends r r' b tracked = elim (Bool-cases (ltb b.completed_seq b.current_seq)) [
    | inl y ↦ loop-from r r' b b.active refl tracked (ground (arith, y))
    | inr n ↦ loop-done b.current_seq (r ∷ r' ∷ []) b (ground (arith, n))
  ]
