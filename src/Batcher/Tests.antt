-- ===== src/Batcher/Tests.antt =====
-- The write buffer on concrete inputs.
use kvdb_nodejs.Prelude.{
  ℕ, ◌≡◌, length, ◌≤◌, refl, map, true, false, List, [], ◌∷◌, none, some, Text, arith, codes,
  text_keys, text_beq, find_row, upsert,
}
use kvdb_nodejs.Prelude.Decimal.{decimal}
use kvdb_nodejs.Core.Failure.{Result, ok, err, plain_error}
use kvdb_nodejs.Batcher.{
  Key, SetItem, number_key, Flight, Batcher, writing, key_text, pending_count,
}
use kvdb_nodejs.Batcher.Flush.{
  new_batcher, flush, flush_loop, clear, finish_flush, enqueue, enqueue_delete, settle_all, written,
  deleted, answer, check_flush_conditions, snapshot_of,
}
use kvdb_nodejs.Core.Expiry.{RawEntry}
use kvdb_nodejs.Batcher.Payload.{flush_batch}
use kvdb_nodejs.Batcher.Lifetime.{lasting_call}
use kvdb_nodejs.Batcher.Coalesce.{Call, set_of, delete_of, run_calls}
use kvdb_nodejs.Batcher.Reach.{Reach, created, set_called, flushed, flush_completes}
use kvdb_nodejs.Batcher.Wedge.{clear_wedges}
use kvdb_nodejs.Batcher.Answers.{window_answered}
use kvdb_nodejs.Batcher.Window.{call_all, window_refines}

abbrev buffer : Batcher ℕ ℕ
unfolding new_batcher
buffer = new_batcher none none none none

abbrev item : ℕ → ℕ → SetItem ℕ ℕ
item key value = record {
  key = number_key key;
  value = value;
  keys = none;
  ttl_ms = none;
  enqueued_at = 0;
}

abbrev put : ℕ → ℕ → Call ℕ ℕ
put key value = set_of (item key value)

-- A key set twice, one set and deleted, one deleted and set.
abbrev later_calls : List (Call ℕ ℕ)
later_calls =
    put 2 20 ∷ put 1 11 ∷ delete_of (number_key 2) ∷ delete_of (number_key 3) ∷ put 3 30 ∷ []

abbrev stored : List (Text × RawEntry ℕ)
stored =
    (codes "2", record { value = 5; expires_at = none })
    ∷ (codes "3", record { value = 6; expires_at = some 900 })
    ∷ []

-- A set with a lifetime, overwritten by one without, expires with the first.
short_lived :
    find_row (codes "1") (
      flush_batch 70
        (snapshot_of
          (call_all 0 (set_of (record (item 1 10) { ttl_ms = some 5 }) ∷ put 1 11 ∷ []) buffer))
        [])
    ≡ some (record { value = 11; expires_at = some 5 })
unfolding buffer flush_batch snapshot_of call_all enqueue check_flush_conditions decimal key_text
    find_row upsert text_beq
short_lived = refl

window_refines_example :
    (f : Flight ℕ ℕ) × ((flush (call_all 0 (put 1 10 ∷ later_calls) buffer)).active ≡ writing f)
    × ((k : Text)
        → find_row k (flush_batch 70 f.snapshot stored)
          ≡ find_row k (run_calls (map lasting_call (put 1 10 ∷ later_calls)) stored))
unfolding buffer
window_refines_example =
    window_refines 70 0 (put 1 10) later_calls buffer stored
      (refl, (refl, (refl, (tt, (tt, (refl, tt)))))) refl refl refl (omega arith) (omega arith)

-- The delete that a later set of the same key covers is answered `false`, though its row was there.
answers :
    (finish_flush
      (ok (λ k. true))
      (flush (call_all 0 (delete_of (number_key 3) ∷ put 3 30 ∷ []) buffer))).0
    ≡ (0, deleted false) ∷ (1, written) ∷ []
unfolding buffer decimal call_all flush finish_flush settle_all answer check_flush_conditions
    enqueue enqueue_delete key_text find_row upsert text_beq snapshot_of
answers = refl

-- One call in flight, and one that came after it.
abbrev busy : Batcher ℕ ℕ
unfolding call_all buffer enqueue flush
busy = call_all 1 (put 2 20 ∷ []) (flush (call_all 0 (put 1 10 ∷ []) buffer))

busy-Reach : Reach busy
unfolding busy buffer call_all
busy-Reach =
    set_called 1 (item 2 20) (flushed (set_called 0 (item 1 10) (created none none none none)))

flush_completes_example :
    (result : Result (Unit {0})) × (b' : Batcher ℕ ℕ) × (flush_loop 2
        (ok (λ k. true) ∷ err (plain_error "down") ∷ [])
        busy
      ≡ some (result, b'))
    × (result ≡ ok tt → 2 ≤ b'.completed_seq)
unfolding busy buffer call_all flush enqueue check_flush_conditions pending_count decimal upsert
flush_completes_example = flush_completes busy-Reach (ok (λ k. true)) (err (plain_error "down"))

clear_wedges_example :
    (let landed' = (finish_flush (ok (λ k. true)) (clear none busy).1).1 in
      flush_loop landed'.current_seq (map ok ((λ (k : Key). true) ∷ [])) landed' ≡ none)
unfolding busy buffer call_all flush enqueue check_flush_conditions pending_count decimal upsert
clear_wedges_example =
    clear_wedges none (ok (λ k. true)) ((λ (k : Key). true) ∷ []) busy _ refl (omega arith)

window_answered_example :
    length
      (finish_flush
        (err (plain_error "down"))
        (flush (call_all 0 (put 1 10 ∷ later_calls) buffer))).0
    ≡ 6
unfolding buffer
window_answered_example =
    window_answered (err (plain_error "down")) 0 (put 1 10) later_calls buffer refl refl refl
      (omega arith) (omega arith)
