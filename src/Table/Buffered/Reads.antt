-- ===== src/Table/Buffered/Reads.antt =====
-- Reads of a table with a write buffer see the writes that the buffer still holds.
use kvdb_nodejs.Prelude.{
  ℕ, ◌≤◌, ◌<◌, ◌≡◌, refl, sym, ap, ◌∙◌, true, List, [], ◌∷◌, map, Option, none, some, Text,
  text_keys, find_row, get_or, length, All, All-find, arith,
}
use kvdb_nodejs.Batcher.{pending_count, Key, key_text, Pending, Flight, Batcher, idle, writing}
use kvdb_nodejs.Batcher.Flush.{set_item, get_pending, get_in_flight, sort_ops, flush}
use kvdb_nodejs.Batcher.Coalesce.{
  Call, set_of, delete_of, run_calls, fold_calls, last_value, Pend, IsMap, fold_calls-Pend,
  fold_calls-IsMap, find_row-run_calls,
}
use kvdb_nodejs.Batcher.Snapshot.{or_none, operations}
use kvdb_nodejs.Batcher.Window.{
  call_all, clean_call, call_all-After, run_calls-clean, fold_calls-fills, flush-empties,
  window-snapshot,
}
use kvdb_nodejs.Batcher.Lookup.{last_op-sort_ops}
use kvdb_nodejs.Batcher.Lifetime.{Timeless, Lasting, fold_calls-Lasting}
use kvdb_nodejs.Table.Buffered.{item_expired, op_value, value_or, buffered_get}

module _ {V C : Type 0} where
  -- What a looked up operation gives is what the last call of its key left.
  value-Pend :
      (now : ℕ) (k : Text) (ops : List (Text × Pending V C)) (stored : Option V)
      (e : Option (Option V))
      → All Lasting ops
      → Pend k ops e
      → value_or now (find_row k ops) stored ≡ get_or stored e
  unfolding op_value set_item item_expired
  value-Pend now k ops stored none l h = rw h refl
  value-Pend now k ops stored (some none) l (p, e, does) = rw e (rw does refl)
  value-Pend now k ops stored (some (some v)) l (p, e, (kind, (i, item, value))) =
      rw e (rw (kind, item) (rw (All-find Lasting k ops p l e i item) (ap some value)))

  clean-Timeless :
      (calls : List (Call V C)) → All Timeless calls → All Timeless (map clean_call calls)
  unfolding clean_call
  clean-Timeless [] h = tt
  clean-Timeless (set_of i ∷ calls) h = (h.0, clean-Timeless calls h.1)
  clean-Timeless (delete_of k ∷ calls) h = (tt, clean-Timeless calls h.1)

  -- The buffer before and after its flush has taken off.
  read-Pend :
      (now : ℕ) (key : Key) (b : Batcher V C) (ops : List (Text × Pending V C))
      (rows : List (Text × V)) (e : Option (Option V))
      → b.options.coalesce ≡ true
      → b.pending_map ≡ ops
      → b.active ≡ idle
      → All Lasting ops
      → Pend (key_text key) ops e
      → buffered_get now key b rows ≡ get_or (find_row (key_text key) rows) e
  unfolding buffered_get get_pending get_in_flight
  read-Pend now key b ops rows e on same off l h =
      rw (on, same)
        (rw (get_in_flight, off)
          (value-Pend now (key_text key) ops (find_row (key_text key) rows) e l h))

  read_flight-Pend :
      (now : ℕ) (key : Key) (b : Batcher V C) (f : Flight V C)
      (ops waiting : List (Text × Pending V C)) (rows : List (Text × V)) (e w : Option (Option V))
      → b.options.coalesce ≡ true
      → b.pending_map ≡ waiting
      → b.active ≡ writing f
      → f.snapshot ≡ sort_ops (operations ops)
      → IsMap ops
      → (All Lasting ops × All Lasting waiting)
      → Pend (key_text key) ops e
      → Pend (key_text key) waiting w
      → buffered_get now key b rows ≡ get_or (get_or (find_row (key_text key) rows) e) w
  unfolding buffered_get get_pending get_in_flight
  read_flight-Pend now key b f ops waiting rows e w on same flies snapshot m l h g =
      rw (on, same)
        (rw (get_in_flight, flies)
          (rw (snapshot, last_op-sort_ops (key_text key) ops m)
            (rw (value-Pend now (key_text key) ops (find_row (key_text key) rows) e l.0 h)
              (value-Pend now (key_text key) waiting _ w l.1 g))))

  -- The map that calls make of an empty one, and what they do to the rows.
  folded-Pend :
      (k : Text) (n : ℕ) (calls : List (Call V C))
      → Pend k (fold_calls n (map clean_call calls) []) (last_value k (map clean_call calls))
  unfolding find_row
  folded-Pend k n calls =
      rw (or_none (last_value k (map clean_call calls))) at
        (fold_calls-Pend k n (map clean_call calls) [] none refl)

  folded-Lasting :
      (n : ℕ) (calls : List (Call V C))
      → All Timeless calls
      → All Lasting (fold_calls n (map clean_call calls) [])
  folded-Lasting n calls t =
      fold_calls-Lasting n (map clean_call calls) [] (clean-Timeless calls t) tt

  last_value-run_calls :
      (k : Text) (calls : List (Call V C)) (rows : List (Text × V))
      → get_or (find_row k rows) (last_value k (map clean_call calls))
        ≡ find_row k (run_calls calls rows)
  last_value-run_calls k calls rows =
      sym (find_row-run_calls k (map clean_call calls) rows)
      ∙ ap (λ r. find_row k r) (run_calls-clean calls rows)

  -- calls without lifetimes on an idle, empty, coalescing buffer, too few to fill it: each key reads as
  -- if the calls had been made one after the other on the rows. When the flush has taken them over,
  -- and further such calls wait behind it, it reads as if these had been made after them.
  pub reads_writes :
      (n m now : ℕ) (c : Call V C) (calls later : List (Call V C)) (b : Batcher V C)
      (rows : List (Text × V)) (key : Key)
      → b.options.coalesce ≡ true
      → b.active ≡ idle
      → b.pending_map ≡ []
      → b.completed_seq ≤ b.current_seq
      → length (c ∷ calls) < b.options.max_batch_size
      → length later < b.options.max_batch_size
      → All Timeless (c ∷ calls)
      → All Timeless later
      → (buffered_get now key (call_all n (c ∷ calls) b) rows
          ≡ find_row (key_text key) (run_calls (c ∷ calls) rows))
        × (buffered_get now key (call_all m later (flush (call_all n (c ∷ calls) b))) rows
            ≡ find_row (key_text key) (run_calls later (run_calls (c ∷ calls) rows)))
  unfolding pending_count
  reads_writes n m now c calls later b rows key on off empty fits short less lasts last =
      let k = key_text key in
      let b' = call_all n (c ∷ calls) b in
      let cs = map clean_call (c ∷ calls) in
      let ops = fold_calls n cs [] in
      let after = call_all-After n (c ∷ calls) b on (rw empty (omega (arith, short))) in
      let on' : b'.options.coalesce ≡ true = ap (λ o. o.coalesce) after.same_options ∙ on in
      let folded : b'.pending_map ≡ ops = after.folded ∙ ap (λ z. fold_calls n cs z) empty in
      let off' : b'.active ≡ idle = after.same_active ∙ off in
      let (f, takes, snapshot) = window-snapshot n c calls b on off empty fits short in
      let (emptied, kept) =
        flush-empties b' on' off' (omega (arith, after.same_completed, after.counted, fits)) (
          rw (pending_count, on', folded)
            (fold_calls-fills n (clean_call c) (map clean_call calls) [])) in
      let options = kept ∙ after.same_options in
      let then' =
        call_all-After m later (flush b') (ap (λ o. o.coalesce) kept ∙ on')
          (rw (emptied, options) (omega (arith, less))) in
      (
        read-Pend now key b' ops rows (last_value k cs) on' folded off'
              (folded-Lasting n (c ∷ calls) lasts) (folded-Pend k n (c ∷ calls))
            ∙ last_value-run_calls k (c ∷ calls) rows,
        read_flight-Pend now key (call_all m later (flush b')) f ops
              (fold_calls m (map clean_call later) []) rows (last_value k cs)
              (last_value k (map clean_call later))
              (ap (λ o. o.coalesce) (then'.same_options ∙ options) ∙ on)
              (then'.folded ∙ ap (λ z. fold_calls m (map clean_call later) z) emptied)
              (then'.same_active ∙ takes) snapshot (fold_calls-IsMap n cs [] (tt, tt))
              (folded-Lasting n (c ∷ calls) lasts, folded-Lasting m later last)
              (folded-Pend k n (c ∷ calls)) (folded-Pend k m later)
            ∙ (ap (λ r. get_or r (last_value k (map clean_call later)))
                  (last_value-run_calls k (c ∷ calls) rows)
                ∙ last_value-run_calls k later (run_calls (c ∷ calls) rows)),
      )
