-- ===== src/Batcher/Reach.antt =====
-- The states of a buffer that is not cleared (src/core/batcher.ts), and where their calls are.
use kvdb_nodejs.Prelude.{
  ℕ, ◌≤◌, ◌<◌, ◌≡◌, refl, sym, ap, inl, inr, Bool, true, false, [], ◌∷◌, ◌++◌, Option, none, some,
  Text, text_keys, arith, length, length-append, length_le_upsert, find_row, upsert, leb, eqb,
  eqb_no, if◌then◌else◌, Bool-cases,
}
use mathlib.Core.Path.{subst}
use kvdb_nodejs.Core.Failure.{Result, ok}
use kvdb_nodejs.Batcher.{
  Key, SetItem, Pending, Active, idle, writing, spent, Batcher, pending_count,
}
use kvdb_nodejs.Batcher.Flush.{
  new_batcher, keep, enqueue, enqueue_delete, flush, flush_round, execute_flush, finish_flush,
  flush_loop, follow_up, land, check_flush_conditions, is_idle,
}
use kvdb_nodejs.Batcher.Barrier.{
  Tracks, IsTracked, landed, finish-landed, round-writing, flush_ends,
}

-- A buffer after calls, flushes and landings in any order.
pub data Reach {V C : Type 0} : Batcher V C → Type 0 where
  created :
      (size : Option ℕ) (fold aggregate : Option Bool) (room : Option ℕ)
      → Reach (new_batcher size fold aggregate room)
  set_called :
      {b : Batcher V C}
      → (caller : ℕ) (item : SetItem V C) → Reach b
      → Reach (enqueue caller item b)
  delete_called :
      {b : Batcher V C} → (caller : ℕ) (key : Key) → Reach b → Reach (enqueue_delete caller key b)
  flushed : {b : Batcher V C} → Reach b → Reach (flush b)
  returned :
      {b : Batcher V C} → (result : Result (Key → Bool)) → Reach b → Reach (finish_flush result b).1

module _ {V C : Type 0} where
  -- A flush round keeps the calls, where the buffer holds something or all is written.
  round-IsTracked :
      (b : Batcher V C) (a : Active V C)
      → b.active ≡ a
      → Tracks a b
      → b.completed_seq < b.current_seq
      → IsTracked (flush_round b)
  unfolding flush_round execute_flush
  round-IsTracked b idle e h behind =
      let started : flush_round b ≡ execute_flush b =
        ap (λ t. if is_idle t then execute_flush b else b) e in
      subst (λ x. IsTracked x) (sym started)
        (rw (execute_flush, eqb_no _ (h behind)) (λ late. absurd (omega (arith, late))))
  round-IsTracked b (writing f) e h behind =
      subst (λ x. IsTracked x) (sym (round-writing b f e)) (subst (λ x. Tracks x b) (sym e) h)
  round-IsTracked b spent e h behind = absurd h

  Tracks-timer :
      (a : Active V C) (b : Batcher V C) (timer : Bool)
      → Tracks a b
      → Tracks a (record b { timer = timer })
  unfolding pending_count
  Tracks-timer idle b timer h = h
  Tracks-timer (writing f) b timer h = h
  Tracks-timer spent b timer h = h

  flush-IsTracked : (b : Batcher V C) → IsTracked b → IsTracked (flush b)
  unfolding flush
  flush-IsTracked b h =
      let quiet : Batcher V C = record b { timer = false } in
      let kept : IsTracked quiet = Tracks-timer b.active b false h in
      elim (Bool-cases (leb b.current_seq b.completed_seq)) [
        | inl y ↦
            subst (λ x. IsTracked x) (sym (ap (λ t. if t then quiet else flush_round quiet) y)) kept
        | inr n ↦
            subst (λ x. IsTracked x) (sym (ap (λ t. if t then quiet else flush_round quiet) n))
              (round-IsTracked quiet b.active refl kept (ground (arith, n)))
      ]

  check-IsTracked : (b : Batcher V C) → IsTracked b → IsTracked (check_flush_conditions b)
  unfolding check_flush_conditions
  check-IsTracked b h =
      let timed : Batcher V C = record b { timer = true } in
      elim (Bool-cases (leb b.options.max_batch_size (pending_count b))) [
        | inl y ↦
            subst (λ x. IsTracked x) (sym (ap (λ t. if t then flush b else timed) y))
              (flush-IsTracked b h)
        | inr n ↦
            subst (λ x. IsTracked x) (sym (ap (λ t. if t then flush b else timed) n))
              (Tracks-timer b.active b true h)
      ]

  Tracks-filled :
      (a : Active V C) (b b' : Batcher V C) → 0 < pending_count b' → Tracks a b → Tracks a b'
  Tracks-filled idle b b' p h = λ _. p
  Tracks-filled (writing f) b b' p h = λ _. p
  Tracks-filled spent b b' p h = h

  keep-IsTracked :
      (fold : Bool) (key : Text) (merge : Option (Pending V C) → Pending V C) (b : Batcher V C)
      → b.options.coalesce ≡ fold
      → IsTracked b
      → IsTracked (keep fold key merge b)
  unfolding keep pending_count
  keep-IsTracked true key merge b on h =
      let ops = upsert key (merge (find_row key b.pending_map)) b.pending_map in
      Tracks-filled b.active b (keep true key merge b)
        (subst (λ t. 0 < (if t then length ops else length b.pending_list)) (sym on)
          (length_le_upsert key (merge (find_row key b.pending_map)) b.pending_map).1)
        h
  keep-IsTracked false key merge b on h =
      let ops = b.pending_list ++ merge none ∷ [] in
      Tracks-filled b.active b (keep false key merge b)
        (subst (λ t. 0 < (if t then length b.pending_map else length ops)) (sym on)
          (omega (arith, length-append b.pending_list (merge none ∷ []))))
        h

  follow_up-IsTracked : (b : Batcher V C) → IsTracked b → IsTracked (follow_up b)
  unfolding follow_up
  follow_up-IsTracked b h = elim (Bool-cases (eqb (pending_count b) 0)) [
    | inl y ↦
        subst (λ x. IsTracked x) (sym (ap (λ t. if t then b else check_flush_conditions b) y)) h
    | inr n ↦
        subst (λ x. IsTracked x) (sym (ap (λ t. if t then b else check_flush_conditions b) n))
          (check-IsTracked b h)
  ]

  finish-IsTracked :
      (r : Result (Key → Bool)) (b : Batcher V C) (a : Active V C)
      → b.active ≡ a
      → Tracks a b
      → IsTracked (finish_flush r b).1
  unfolding finish_flush land pending_count landed
  finish-IsTracked r b idle e h =
      subst (λ x. IsTracked x) (sym (ap (λ x. (land r b x).1) e))
        (subst (λ x. Tracks x b) (sym e) h)
  finish-IsTracked r b (writing f) e h =
      subst (λ x. IsTracked x) (sym (finish-landed r b f e)) (follow_up-IsTracked (landed b f) h)
  finish-IsTracked r b spent e h = absurd h

  -- In each state that calls, flushes and landings reach, the calls that are not written are in the
  -- buffer or in flight.
  pub Reach-IsTracked : {b : Batcher V C} → Reach b → IsTracked b
  unfolding new_batcher enqueue enqueue_delete
  Reach-IsTracked (created size fold aggregate room) = λ late. absurd (omega (arith, late))
  Reach-IsTracked (set_called {b} caller item p) =
      check-IsTracked _ (keep-IsTracked b.options.coalesce _ _ b refl (Reach-IsTracked p))
  Reach-IsTracked (delete_called {b} caller key p) =
      check-IsTracked _ (keep-IsTracked b.options.coalesce _ _ b refl (Reach-IsTracked p))
  Reach-IsTracked (flushed {b} p) = flush-IsTracked b (Reach-IsTracked p)
  Reach-IsTracked (returned {b} result p) =
      finish-IsTracked result b b.active refl (Reach-IsTracked p)

  -- In each state that calls, flushes and landings reach, the loop of `flush` ends after at most two
  -- results of the handler, if no call comes in meanwhile; where it does not throw, the number of the
  -- last call made before it is completed then.
  pub flush_completes :
      {b : Batcher V C}
      → Reach b
      → (r r' : Result (Key → Bool))
      → (result : Result (Unit {0})) × (b' : Batcher V C) × (flush_loop b.current_seq
            (r ∷ r' ∷ [])
            b
          ≡ some (result, b'))
        × (result ≡ ok tt → b.current_seq ≤ b'.completed_seq)
  flush_completes {b} p r r' = flush_ends r r' b (Reach-IsTracked p)
