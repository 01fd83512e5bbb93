-- ===== src/Batcher/Flush.antt =====
-- The calls of the write buffer and the two steps of a flush.
use kvdb_nodejs.Prelude.{
  ℕ, suc, ◌*◌, max, Bool, true, false, ◌||◌, List, [], ◌∷◌, ◌++◌, map, Option, none, some, Text,
  text_keys, text_beq, find_row, upsert, get_or, is_some, leb, eqb, if◌then◌else◌,
}
use kvdb_nodejs.Core.Failure.{Failure, Result, ok, err, plain_error}
use kvdb_nodejs.Batcher.{
  Key, key_text, key_leb, SetItem, OpType, set_op, delete_op, Resolver, set_call, delete_call,
  Pending, Active, idle, writing, spent, Batcher, merge_set, merge_delete, pending_count,
  sanitize_secondary_keys,
}

-- How a caller's promise ends.
pub data Answer : Type 0 where
  written : Answer
  deleted : Bool → Answer
  rejected : Failure → Answer

-- `resolve()`, and `resolve(wasDeleted)`
unfoldable pub answer : Option Bool → Resolver → ℕ × Answer
answer outcome (set_call caller) = (caller, written)
answer none (delete_call caller default heard) = (caller, deleted default)
answer (some was) (delete_call caller default heard) =
    (caller, deleted (if heard then was else default))

unfoldable pub new_batcher :
    {V C : Type 0} → Option ℕ → Option Bool → Option Bool → Option ℕ → Batcher V C
new_batcher batch_size coalesce sql_aggregation buffer_size =
    let size = max 1 (get_or 50 batch_size) in
    record {
      options = record {
        max_batch_size = size;
        coalesce = get_or true coalesce;
        sql_aggregation = get_or true sql_aggregation;
        max_buffer_size = max size (get_or (size * 10) buffer_size);
      };
      pending_map = [];
      pending_list = [];
      active = idle;
      current_seq = 0;
      completed_seq = 0;
      timer = false;
    }

unfoldable pub is_delete : OpType → Bool
is_delete set_op = false
is_delete delete_op = true

module _ {V C : Type 0} where
  unfoldable pub insert_op : Pending V C → List (Pending V C) → List (Pending V C)
  insert_op p [] = p ∷ []
  insert_op p (q ∷ ops) =
      let later = insert_op p ops in if key_leb p.key q.key then p ∷ q ∷ ops else q ∷ later

  unfoldable pub sort_ops : List (Pending V C) → List (Pending V C)
  unfolding insert_op
  sort_ops [] = []
  sort_ops (p ∷ ops) = insert_op p (sort_ops ops)

  unfoldable pub snapshot_of : Batcher V C → List (Pending V C)
  unfolding sort_ops
  snapshot_of b =
      if b.options.coalesce
      then sort_ops (map (λ (row : Text × Pending V C). row.1) b.pending_map)
      else b.pending_list

  -- `executeFlush` up to the call of the handler.
  unfoldable pub execute_flush : Batcher V C → Batcher V C
  unfolding snapshot_of pending_count
  execute_flush b = if eqb (pending_count b) 0 then record b { active = spent } else record b {
    pending_map = if b.options.coalesce then [] else b.pending_map;
    pending_list = if b.options.coalesce then b.pending_list else [];
    active = writing (record { snapshot = snapshot_of b; batch_seq = b.current_seq });
  }

  -- The item of a set.
  unfoldable pub set_item : OpType → Option (SetItem V C) → Option (SetItem V C)
  set_item set_op item = item
  set_item delete_op item = none

  -- The `sets` and the `deletes` that the handler is given.
  unfoldable pub payload_sets : List (Pending V C) → List (SetItem V C)
  unfolding set_item
  payload_sets [] = []
  payload_sets (p ∷ ops) = elim (set_item p.kind p.item) [
    | none ↦ payload_sets ops
    | some i ↦ i ∷ payload_sets ops
  ]

  unfoldable pub payload_deletes : List (Pending V C) → List Key
  unfolding is_delete
  payload_deletes [] = []
  payload_deletes (p ∷ ops) =
      let rest = payload_deletes ops in if is_delete p.kind then p.key ∷ rest else rest

  unfoldable pub is_idle : Active V C → Bool
  is_idle idle = true
  is_idle (writing f) = false
  is_idle spent = false

  -- One round of the loop of `flush`, up to its `await`.
  unfoldable pub flush_round : Batcher V C → Batcher V C
  unfolding execute_flush is_idle
  flush_round b = let started = execute_flush b in if is_idle b.active then started else b

  -- `flush` up to its first `await`.
  unfoldable pub flush : Batcher V C → Batcher V C
  unfolding flush_round pending_count
  flush b =
      let quiet = record b { timer = false } in
      let started = flush_round quiet in
      if leb b.current_seq b.completed_seq then quiet else started

  unfoldable pub check_flush_conditions : Batcher V C → Batcher V C
  unfolding flush pending_count
  check_flush_conditions b =
      let flushed = flush b in
      if leb b.options.max_batch_size (pending_count b) then flushed else record b { timer = true }

  -- An operation comes in: it is merged into the one of its key, or stands at the end of the list.
  unfoldable pub keep :
      Bool → Text → (Option (Pending V C) → Pending V C) → Batcher V C → Batcher V C
  keep true key merge b = record b {
    current_seq = suc b.current_seq;
    pending_map = upsert key (merge (find_row key b.pending_map)) b.pending_map;
  }
  keep false key merge b = record b {
    current_seq = suc b.current_seq;
    pending_list = b.pending_list ++ merge none ∷ [];
  }

  -- `enqueue` once the buffer has room, in which the caller's promise is made.
  unfoldable pub enqueue : ℕ → SetItem V C → Batcher V C → Batcher V C
  unfolding keep merge_set sanitize_secondary_keys
  enqueue caller item b =
      let clean : SetItem V C = record item { keys = sanitize_secondary_keys item.keys } in
      check_flush_conditions
        (keep b.options.coalesce (key_text item.key) (merge_set caller clean) b)

  unfoldable pub enqueue_delete : ℕ → Key → Batcher V C → Batcher V C
  unfolding keep merge_delete
  enqueue_delete caller key b =
      check_flush_conditions (keep b.options.coalesce (key_text key) (merge_delete caller key) b)

  -- The last operation of the key in a list, which a Map of the operations holds.
  unfoldable pub last_op : Text → List (Pending V C) → Option (Pending V C)
  last_op key [] = none
  last_op key (p ∷ ops) = elim (last_op key ops) [
    | none ↦ if text_beq (key_text p.key) key then some p else none
    | some q ↦ some q
  ]

  unfoldable pub get_pending : Key → Batcher V C → Option (Pending V C)
  unfolding last_op key_text
  get_pending key b =
      if b.options.coalesce
      then find_row (key_text key) b.pending_map
      else last_op (key_text key) b.pending_list

  unfoldable pub has_pending : Key → Batcher V C → Bool
  unfolding get_pending
  has_pending key b = is_some (get_pending key b)

  abbrev pub flight_op : Text → Active V C → Option (Pending V C)
  unfolding last_op
  flight_op key idle = none
  flight_op key (writing f) = last_op key f.snapshot
  flight_op key spent = none

  unfoldable pub get_in_flight : Key → Batcher V C → Option (Pending V C)
  unfolding key_text
  get_in_flight key b = flight_op (key_text key) b.active

  -- The answers to the callers of one operation; without `deletedKeys` every delete counts.
  outcome_of : (Key → Bool) → Pending V C → OpType → Option Bool
  outcome_of was_deleted p set_op = none
  outcome_of was_deleted p delete_op = some (p.had_prior_set || was_deleted p.key)

  settle_op : (Key → Bool) → Pending V C → List (ℕ × Answer)
  unfolding outcome_of answer
  settle_op was_deleted p = map (answer (outcome_of was_deleted p p.kind)) p.resolves

  unfoldable pub settle_all : (Key → Bool) → List (Pending V C) → List (ℕ × Answer)
  unfolding settle_op
  settle_all was_deleted [] = []
  settle_all was_deleted (p ∷ ops) = settle_op was_deleted p ++ settle_all was_deleted ops

  unfoldable pub reject_all : Failure → List (Pending V C) → List (ℕ × Answer)
  reject_all e [] = []
  reject_all e (p ∷ ops) = map (λ caller. (caller, rejected e)) p.rejects ++ reject_all e ops

  unfoldable pub settle : Result (Key → Bool) → List (Pending V C) → List (ℕ × Answer)
  unfolding settle_all reject_all
  settle (ok was_deleted) ops = settle_all was_deleted ops
  settle (err e) ops = reject_all e ops

  -- The `finally`: what has come in during the flight is flushed at once or by the timer.
  unfoldable pub follow_up : Batcher V C → Batcher V C
  unfolding check_flush_conditions pending_count
  follow_up b = let next = check_flush_conditions b in if eqb (pending_count b) 0 then b else next

  unfoldable pub land :
      Result (Key → Bool) → Batcher V C → Active V C → List (ℕ × Answer) × Batcher V C
  unfolding settle follow_up
  land result b idle = ([], b)
  land result b spent = ([], b)
  land result b (writing f) = (
    settle result f.snapshot,
    follow_up (record b { active = idle; completed_seq = f.batch_seq }),
  )

  -- The handler has returned, with the keys that it deleted, or has thrown.
  unfoldable pub finish_flush : Result (Key → Bool) → Batcher V C → List (ℕ × Answer) × Batcher V C
  unfolding land
  finish_flush result b = land result b b.active

  -- The loop of `flush`, for the handler's results in turn; none where it still waits after them.
  unfoldable pub flush_loop :
      ℕ → List (Result (Key → Bool)) → Batcher V C → Option (Result (Unit {0}) × Batcher V C)
  unfolding flush_round finish_flush
  flush_loop target [] b = if leb target b.completed_seq then some (ok tt, b) else none
  flush_loop target (r ∷ results) b =
      let next = (finish_flush r (flush_round b)).1 in
      let rest = flush_loop target results next in
      if leb target b.completed_seq
      then some (ok tt, b)
      else (elim r [ err e ↦ some (err e, next) | ok was_deleted ↦ rest ])

  unfoldable pub clear : Option Failure → Batcher V C → List (ℕ × Answer) × Batcher V C
  unfolding reject_all
  clear error b =
      let ops =
        if b.options.coalesce
        then map (λ (row : Text × Pending V C). row.1) b.pending_map
        else b.pending_list in
      (
        reject_all (get_or (plain_error "Write buffer cleared") error) ops,
        record b {
          pending_map = [];
          pending_list = [];
          completed_seq = b.current_seq;
          timer = false;
        },
      )
