-- ===== src/Table/Buffered/Tests.antt =====
-- Reads through a concrete buffer.
use kvdb_nodejs.Prelude.{
  ℕ, ◌≡◌, refl, false, List, [], ◌∷◌, Option, none, some, Text, arith, codes, text_keys, text_beq,
  find_row, upsert, remove,
}
use kvdb_nodejs.Prelude.Decimal.{decimal}
use kvdb_nodejs.Batcher.{number_key, Batcher, key_text}
use kvdb_nodejs.Batcher.Flush.{
  new_batcher, flush, enqueue, enqueue_delete, check_flush_conditions, snapshot_of, get_pending,
  get_in_flight,
}
use kvdb_nodejs.Batcher.Coalesce.{Call, set_of, delete_of, run_calls}
use kvdb_nodejs.Batcher.Window.{call_all}
use kvdb_nodejs.Table.Buffered.{buffered_get, buffered_exists, buffered_runs}
use kvdb_nodejs.Table.Buffered.Reads.{reads_writes}

abbrev buffer : Batcher ℕ ℕ
unfolding new_batcher
buffer = new_batcher none none none none

abbrev put : ℕ → ℕ → Option ℕ → Call ℕ ℕ
put key value ttl =
    set_of
      (record { key = number_key key; value = value; keys = none; ttl_ms = ttl; enqueued_at = 100 })

abbrev later_calls : List (Call ℕ ℕ)
later_calls = put 2 20 none ∷ delete_of (number_key 1) ∷ []

abbrev stored : List (Text × ℕ)
stored = (codes "1", 5) ∷ (codes "3", 6) ∷ []

reads_writes_example :
    (buffered_get 500 (number_key 1) (call_all 0 (put 1 10 none ∷ later_calls) buffer) stored
      ≡ none)
    × (buffered_get 500
          (number_key 1)
          (call_all 3
            (put 1 12 none ∷ [])
            (flush (call_all 0 (put 1 10 none ∷ later_calls) buffer)))
          stored
        ≡ some 12)
unfolding buffer run_calls find_row upsert remove text_beq key_text decimal
reads_writes_example =
    reads_writes 0 3 500 (put 1 10 none) later_calls (put 1 12 none ∷ []) buffer stored
      (number_key 1) refl refl refl (omega arith) (omega arith) (omega arith)
      (refl, (refl, (tt, tt))) (refl, tt)

-- A set without a lifetime over one with a lifetime takes that over.
inherited_lifetime :
    buffered_get 151
      (number_key 1)
      (call_all 0 (put 1 10 (some 50) ∷ put 1 11 none ∷ []) buffer)
      stored
    ≡ none
unfolding buffer buffered_runs call_all find_row upsert text_beq key_text decimal get_pending
    get_in_flight enqueue check_flush_conditions
inherited_lifetime = refl

in_flight_exists :
    buffered_exists 500
      (number_key 3)
      (flush (call_all 0 (delete_of (number_key 3) ∷ []) buffer))
      stored
    ≡ false
unfolding buffer buffered_runs call_all find_row upsert text_beq key_text decimal get_pending
    get_in_flight enqueue_delete check_flush_conditions flush snapshot_of
in_flight_exists = refl
