-- ===== src/Batcher/Window.antt =====
-- A window of calls on the buffer itself, up to its flush.
use kvdb_nodejs.Prelude.{
  leb_no, eqb_no, ℕ, suc, ◌+◌, ◌≤◌, ◌<◌, ◌≡◌, refl, ◌∙◌, ap, true, List, [], ◌∷◌, map, Text, arith,
  All, text_keys, find_row, upsert, remove, length, length-upsert, length_le_upsert,
}
use kvdb_nodejs.Batcher.{
  key_text, SetItem, Pending, Flight, idle, writing, Batcher, merge_set, merge_delete,
  pending_count, sanitize_secondary_keys,
}
use kvdb_nodejs.Batcher.Flush.{
  sort_ops, keep, enqueue, enqueue_delete, check_flush_conditions, flush, execute_flush,
  snapshot_of,
}
use kvdb_nodejs.Core.Expiry.{RawEntry}
use kvdb_nodejs.Batcher.Payload.{flush_batch}
use kvdb_nodejs.Batcher.Lifetime.{Timeless, lasting, lasting_call}
use kvdb_nodejs.Batcher.Coalesce.{
  Call, set_of, delete_of, run_calls, fold_calls, merge_call, call_key,
}
use kvdb_nodejs.Batcher.Snapshot.{operations, flush-fold_calls}

module _ {V C : Type 0} where
  abbrev pub call : ℕ → Call V C → Batcher V C → Batcher V C
  unfolding enqueue enqueue_delete
  call n (set_of i) b = enqueue n i b
  call n (delete_of k) b = enqueue_delete n k b

  -- Calls that come one after the other, each with its number as the caller.
  unfoldable pub call_all : ℕ → List (Call V C) → Batcher V C → Batcher V C
  unfolding call
  call_all n [] b = b
  call_all n (c ∷ calls) b = call_all (suc n) calls (call n c b)

  unfoldable pub clean_call : Call V C → Call V C
  clean_call (set_of i) = set_of (record i { keys = sanitize_secondary_keys i.keys })
  clean_call (delete_of k) = delete_of k

  -- The buffer after a call that does not fill it.
  added : ℕ → Call V C → Batcher V C → Batcher V C
  added n c b = record b {
    current_seq = suc b.current_seq;
    pending_map =
        (let clean = clean_call c in
          upsert (call_key clean) (merge_call n clean (find_row (call_key clean) b.pending_map))
            b.pending_map);
    timer = true;
  }

  check-room :
      (b : Batcher V C)
      → pending_count b < b.options.max_batch_size
      → check_flush_conditions b ≡ record b { timer = true }
  unfolding check_flush_conditions
  check-room b h = rw (check_flush_conditions, leb_no _ _ h) refl

  added-room :
      (n : ℕ) (c : Call V C) (b : Batcher V C)
      → b.options.coalesce ≡ true
      → suc (length b.pending_map) < b.options.max_batch_size
      → check_flush_conditions (record (added n c b) { timer = b.timer }) ≡ added n c b
  unfolding pending_count added
  added-room n c b on room =
      let clean = clean_call c in
      let merged = merge_call n clean (find_row (call_key clean) b.pending_map) in
      check-room (record (added n c b) { timer = b.timer })
        (rw on (omega (arith, length-upsert (call_key clean) merged b.pending_map, room)))

  call-added :
      (n : ℕ) (c : Call V C) (b : Batcher V C)
      → b.options.coalesce ≡ true
      → suc (length b.pending_map) < b.options.max_batch_size
      → call n c b ≡ added n c b
  unfolding call enqueue enqueue_delete keep added clean_call merge_call
  call-added n (set_of i) b on room =
      let clean : SetItem V C = record i { keys = sanitize_secondary_keys i.keys } in
      ap (λ t. check_flush_conditions (keep t (key_text i.key) (merge_set n clean) b)) on
      ∙ added-room n (set_of i) b on room
  call-added n (delete_of k) b on room =
      ap (λ t. check_flush_conditions (keep t (key_text k) (merge_delete n k) b)) on
      ∙ added-room n (delete_of k) b on room

  -- The buffer after calls that do not fill it.
  pub record After (n : ℕ) (calls : List (Call V C)) (b b' : Batcher V C) : Type 0 where
    pub same_options : b'.options ≡ b.options
    pub same_active : b'.active ≡ b.active
    pub same_completed : b'.completed_seq ≡ b.completed_seq
    pub counted : b'.current_seq ≡ b.current_seq + length calls
    pub folded : b'.pending_map ≡ fold_calls n (map clean_call calls) b.pending_map

  pub call_all-After :
      (n : ℕ) (calls : List (Call V C)) (b : Batcher V C)
      → b.options.coalesce ≡ true
      → length b.pending_map + length calls < b.options.max_batch_size
      → After n calls b (call_all n calls b)
  unfolding call_all fold_calls added
  call_all-After n [] b on room = record {
    same_options = refl;
    same_active = refl;
    same_completed = refl;
    counted = omega arith;
    folded = refl;
  }
  call_all-After n (c ∷ calls) b on room =
      let clean = clean_call c in
      let merged = merge_call n clean (find_row (call_key clean) b.pending_map) in
      let ih =
        call_all-After (suc n) calls (added n c b) on
          (omega (arith, length-upsert (call_key clean) merged b.pending_map, room)) in
      rw (call-added n c b on (omega (arith, room))) (record {
        same_options = ih.same_options;
        same_active = ih.same_active;
        same_completed = ih.same_completed;
        counted = omega (arith, ih.counted);
        folded = ih.folded;
      })

  pub run_calls-clean :
      (calls : List (Call V C)) (rows : List (Text × V))
      → run_calls (map clean_call calls) rows ≡ run_calls calls rows
  unfolding run_calls clean_call
  run_calls-clean [] rows = refl
  run_calls-clean (set_of i ∷ calls) rows =
      run_calls-clean calls (upsert (key_text i.key) i.value rows)
  run_calls-clean (delete_of k ∷ calls) rows = run_calls-clean calls (remove (key_text k) rows)

  -- A flush of an idle buffer with something in it takes off with the whole buffer.
  flush-takes :
      (b : Batcher V C)
      → b.active ≡ idle
      → b.completed_seq < b.current_seq
      → 0 < pending_count b
      → (flush b).active ≡ writing (record { snapshot = snapshot_of b; batch_seq = b.current_seq })
  unfolding flush pending_count snapshot_of
  flush-takes b off behind some_left =
      rw (flush, leb_no _ _ behind, off) (rw (execute_flush, eqb_no _ some_left) refl)

  pub flush-empties :
      (b : Batcher V C)
      → b.options.coalesce ≡ true
      → b.active ≡ idle
      → b.completed_seq < b.current_seq
      → 0 < pending_count b
      → ((flush b).pending_map ≡ []) × ((flush b).options ≡ b.options)
  unfolding flush pending_count
  flush-empties b on off behind some_left =
      rw (flush, leb_no _ _ behind, off) (rw (execute_flush, eqb_no _ some_left) (rw on refl, refl))

  length_le_fold_calls :
      (n : ℕ) (calls : List (Call V C)) (ops : List (Text × Pending V C))
      → length ops ≤ length (fold_calls n calls ops)
  unfolding fold_calls
  length_le_fold_calls n [] ops = omega arith
  length_le_fold_calls n (c ∷ calls) ops =
      let merged = merge_call n c (find_row (call_key c) ops) in
      omega (
        arith,
        length_le_fold_calls (suc n) calls (upsert (call_key c) merged ops),
        length_le_upsert (call_key c) merged ops,
      )

  pub fold_calls-fills :
      (n : ℕ) (c : Call V C) (calls : List (Call V C)) (ops : List (Text × Pending V C))
      → 0 < length (fold_calls n (c ∷ calls) ops)
  unfolding fold_calls
  fold_calls-fills n c calls ops =
      let merged = merge_call n c (find_row (call_key c) ops) in
      omega (
        arith,
        length_le_fold_calls (suc n) calls (upsert (call_key c) merged ops),
        length_le_upsert (call_key c) merged ops,
      )

  -- The flight that takes off has the folded calls, in the order of their keys.
  pub window-snapshot :
      (n : ℕ) (c : Call V C) (calls : List (Call V C)) (b : Batcher V C)
      → b.options.coalesce ≡ true
      → b.active ≡ idle
      → b.pending_map ≡ []
      → b.completed_seq ≤ b.current_seq
      → length (c ∷ calls) < b.options.max_batch_size
      → (f : Flight V C) × ((flush (call_all n (c ∷ calls) b)).active ≡ writing f)
        × (f.snapshot ≡ sort_ops (operations (fold_calls n (map clean_call (c ∷ calls)) [])))
  unfolding pending_count snapshot_of
  window-snapshot n c calls b on off empty fits short =
      let b' = call_all n (c ∷ calls) b in
      let after = call_all-After n (c ∷ calls) b on (rw empty (omega (arith, short))) in
      let on' : b'.options.coalesce ≡ true = ap (λ o. o.coalesce) after.same_options ∙ on in
      let folded : b'.pending_map ≡ fold_calls n (map clean_call (c ∷ calls)) [] =
        after.folded ∙ ap (λ m. fold_calls n (map clean_call (c ∷ calls)) m) empty in
      (
        record { snapshot = snapshot_of b'; batch_seq = b'.current_seq },
        flush-takes b' (after.same_active ∙ off)
            (omega (arith, after.same_completed, after.counted, fits))
            (rw (on', folded) (fold_calls-fills n (clean_call c) (map clean_call calls) [])),
        rw (on', folded) refl,
      )

  clean-Timeless :
      (calls : List (Call V C)) → All Timeless calls → All Timeless (map clean_call calls)
  unfolding clean_call
  clean-Timeless [] h = tt
  clean-Timeless (set_of i ∷ calls) h = (h.0, clean-Timeless calls h.1)
  clean-Timeless (delete_of k ∷ calls) h = (tt, clean-Timeless calls h.1)

  run_calls-lasting_clean :
      (calls : List (Call V C)) (rows : List (Text × RawEntry V))
      → run_calls (map lasting_call (map clean_call calls)) rows
        ≡ run_calls (map lasting_call calls) rows
  unfolding run_calls clean_call
  run_calls-lasting_clean [] rows = refl
  run_calls-lasting_clean (set_of i ∷ calls) rows =
      run_calls-lasting_clean calls (upsert (key_text i.key) (lasting i.value) rows)
  run_calls-lasting_clean (delete_of k ∷ calls) rows =
      run_calls-lasting_clean calls (remove (key_text k) rows)

  -- From an idle, empty, coalescing buffer, a window of calls without lifetimes, too short to fill it,
  -- is flushed as one batch, which leaves under each key the entry, value and expiry, that the calls
  -- leave one after the other.
  pub window_refines :
      (now n : ℕ) (c : Call V C) (calls : List (Call V C)) (b : Batcher V C)
      (rows : List (Text × RawEntry V))
      → All Timeless (c ∷ calls)
      → b.options.coalesce ≡ true
      → b.active ≡ idle
      → b.pending_map ≡ []
      → b.completed_seq ≤ b.current_seq
      → length (c ∷ calls) < b.options.max_batch_size
      → (f : Flight V C) × ((flush (call_all n (c ∷ calls) b)).active ≡ writing f)
        × ((k : Text)
            → find_row k (flush_batch now f.snapshot rows)
              ≡ find_row k (run_calls (map lasting_call (c ∷ calls)) rows))
  window_refines now n c calls b rows t on off empty fits short =
      let (f, takes, folded) = window-snapshot n c calls b on off empty fits short in
      (
        f,
        takes,
        λ k. rw folded (
            flush-fold_calls now n (map clean_call (c ∷ calls)) rows k
              (clean-Timeless (c ∷ calls) t)
            ∙ ap (λ r. find_row k r) (run_calls-lasting_clean (c ∷ calls) rows)),
      )
