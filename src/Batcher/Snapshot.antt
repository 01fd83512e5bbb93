-- ===== src/Batcher/Snapshot.antt =====
-- src/core/batcher.ts: the operations of the map in the order of their keys, and their flush.
use kvdb_nodejs.Prelude.{
  ℕ, ◌+◌, ◌≡◌, refl, sym, ◌∙◌, ap, inl, inr, true, List, [], ◌∷◌, map, Option, none, some, Text,
  arith, text_keys, find_row, or_else, get_or, Bool-cases, ◌==◌, All, All-map, All-find,
  Distinct-rows, some_injective, some_ne_none,
}
use kvdb_nodejs.Batcher.{key_leb, Pending}
use kvdb_nodejs.Batcher.Flush.{sort_ops, insert_op}
use kvdb_nodejs.Batcher.Payload.{
  effective_expiry, stored_entry, flush_batch, Misses, Only, any_key, flush_batch-Misses,
  flush_batch-set, flush_batch-delete,
}
use kvdb_nodejs.Batcher.Coalesce.{
  Call, run_calls, fold_calls, last_value, Keyed, Pend, IsMap, fold_calls-Pend, fold_calls-IsMap,
  find_row-run_calls,
}
use kvdb_nodejs.Core.Expiry.{RawEntry}
use kvdb_nodejs.Batcher.Lifetime.{
  Timeless, Lasting, fold_calls-Lasting, lasting_call, lasting_value, last_value-lasting_call,
}

pub or_none : {A : Type 0} (l : Option A) → or_else l none ≡ l
or_none none = refl
or_none (some a) = refl

module _ {V C : Type 0} where
  -- The sum of a number of each operation.
  unfoldable pub total : (Pending V C → ℕ) → List (Pending V C) → ℕ
  total w [] = 0
  total w (p ∷ ops) = w p + total w ops

  total-insert_op :
      (w : Pending V C → ℕ) (p : Pending V C) (ops : List (Pending V C))
      → total w (insert_op p ops) ≡ w p + total w ops
  unfolding insert_op total
  total-insert_op w p [] = refl
  total-insert_op w p (q ∷ ops) = ground (arith, total-insert_op w p ops)

  pub total-sort_ops :
      (w : Pending V C → ℕ) (ops : List (Pending V C)) → total w (sort_ops ops) ≡ total w ops
  unfolding sort_ops total
  total-sort_ops w [] = refl
  total-sort_ops w (p ∷ ops) =
      total-insert_op w p (sort_ops ops) ∙ ap (λ n. w p + n) (total-sort_ops w ops)

  All-insert_op :
      (P : Pending V C → Type 0) (p : Pending V C) (ops : List (Pending V C))
      → P p
      → All P ops
      → All P (insert_op p ops)
  unfolding insert_op
  All-insert_op P p [] h hs = (h, tt)
  All-insert_op P p (q ∷ ops) h hs = elim (Bool-cases (key_leb p.key q.key)) [
    | inl y ↦ rw y (h, hs)
    | inr n ↦ rw n (hs.0, All-insert_op P p ops h hs.1)
  ]

  All-sort_ops :
      (P : Pending V C → Type 0) (ops : List (Pending V C)) → All P ops → All P (sort_ops ops)
  unfolding sort_ops
  All-sort_ops P [] h = tt
  All-sort_ops P (p ∷ ops) h = All-insert_op P p (sort_ops ops) h.0 (All-sort_ops P ops h.1)

  any_key-insert_op :
      (k : Text) (p : Pending V C) (ops : List (Pending V C))
      → any_key k (insert_op p ops) ≡ any_key k (p ∷ ops)
  unfolding insert_op any_key
  any_key-insert_op k p [] = refl
  any_key-insert_op k p (q ∷ ops) = ground (arith, any_key-insert_op k p ops)

  any_key-sort_ops :
      (k : Text) (ops : List (Pending V C)) → any_key k (sort_ops ops) ≡ any_key k ops
  unfolding sort_ops any_key
  any_key-sort_ops k [] = refl
  any_key-sort_ops k (p ∷ ops) =
      any_key-insert_op k p (sort_ops ops) ∙ rw (any_key-sort_ops k ops) refl

  -- `Array.from(map.values())`
  abbrev pub operations : List (Text × Pending V C) → List (Pending V C)
  operations ops = map (λ (row : Text × Pending V C). row.1) ops

  All-operations :
      (P : Pending V C → Type 0) (ops : List (Text × Pending V C))
      → All (λ (row : Text × Pending V C). P row.1) ops
      → All P (operations ops)
  All-operations P [] h = tt
  All-operations P (row ∷ ops) h = (h.0, All-operations P ops h.1)

  any_key-operations :
      (k : Text) (ops : List (Text × Pending V C)) (p : Pending V C)
      → All Keyed ops
      → find_row k ops ≡ some p
      → any_key k (operations ops) ≡ true
  unfolding any_key find_row
  any_key-operations k [] p h e = absurd (some_ne_none (sym e))
  any_key-operations k ((j, q) ∷ ops) p h e = elim (Bool-cases (j == k)) [
    | inl y ↦ rw (h.0.0, y) refl
    | inr n ↦ rw (h.0.0, n) (any_key-operations k ops p h.1 (rw n at e))
  ]

  All-both :
      (P Q : Text × Pending V C → Type 0) (ops : List (Text × Pending V C))
      → All P ops
      → All Q ops
      → All (λ row. P row × Q row) ops
  All-both P Q [] p q = tt
  All-both P Q (row ∷ ops) p q = ((p.0, q.0), All-both P Q ops p.1 q.1)

  pub snapshot-Misses :
      (k : Text) (ops : List (Text × Pending V C))
      → IsMap ops
      → find_row k ops ≡ none
      → All (Misses k) (sort_ops (operations ops))
  snapshot-Misses k ops (d, keyed) e = All-sort_ops (Misses k) (operations ops) (
      All-operations (Misses k) ops (
        All-map ops
          (λ row (found, (own, item)).
            let other = (λ (same : Path Text row.0 k). some_ne_none (sym found ∙ rw same e)) in
            (λ i f same. other (sym (item i f) ∙ same), λ same. other (sym own ∙ same)))
          (All-both _ Keyed ops (Distinct-rows ops d) keyed)))

  pub snapshot-Only :
      (k : Text) (ops : List (Text × Pending V C)) (q : Pending V C)
      → IsMap ops
      → find_row k ops ≡ some q
      → All (Only k q) (sort_ops (operations ops))
  snapshot-Only k ops q (d, keyed) e = All-sort_ops (Only k q) (operations ops) (
      All-operations (Only k q) ops (
        All-map ops
          (λ row (found, (own, item)).
            (λ i f. item i f ∙ sym own, λ same. some_injective (sym found ∙ rw (sym own ∙ same) e)))
          (All-both _ Keyed ops (Distinct-rows ops d) keyed)))

  pub snapshot-any_key :
      (k : Text) (ops : List (Text × Pending V C)) (q : Pending V C)
      → IsMap ops
      → find_row k ops ≡ some q
      → any_key k (sort_ops (operations ops)) ≡ true
  snapshot-any_key k ops q (d, keyed) e =
      any_key-sort_ops k (operations ops) ∙ any_key-operations k ops q keyed e

  flush-Pend :
      (now : ℕ) (k : Text) (ops : List (Text × Pending V C)) (rows : List (Text × RawEntry V))
      (e : Option (Option V))
      → IsMap ops
      → All Lasting ops
      → Pend k ops e
      → find_row k (flush_batch now (sort_ops (operations ops)) rows)
        ≡ get_or (find_row k rows) (lasting_value e)
  unfolding stored_entry effective_expiry
  flush-Pend now k ops rows none m lasts h =
      flush_batch-Misses now k (sort_ops (operations ops)) rows (snapshot-Misses k ops m h)
  flush-Pend now k ops rows (some none) m lasts (p, e, does) =
      flush_batch-delete now k p (sort_ops (operations ops)) rows (snapshot-Only k ops p m e)
        (snapshot-any_key k ops p m e) does
  flush-Pend now k ops rows (some (some v)) m lasts (p, e, (kind, (i, item, value))) =
      flush_batch-set now k p i (sort_ops (operations ops)) rows (snapshot-Only k ops p m e)
        (snapshot-any_key k ops p m e) kind item
      ∙ rw (All-find Lasting k ops p lasts e i item, value) refl

  -- What a flush of the calls' operations leaves, where nothing expires.
  pub flush-fold_calls :
      (now n : ℕ) (calls : List (Call V C)) (rows : List (Text × RawEntry V)) (k : Text)
      → All Timeless calls
      → find_row k (flush_batch now (sort_ops (operations (fold_calls n calls []))) rows)
        ≡ find_row k (run_calls (map lasting_call calls) rows)
  unfolding find_row
  flush-fold_calls now n calls rows k t =
      flush-Pend now k (fold_calls n calls []) rows (last_value k calls)
        (fold_calls-IsMap n calls [] (tt, tt)) (fold_calls-Lasting n calls [] t tt)
        (rw (or_none (last_value k calls)) at (fold_calls-Pend k n calls [] none refl))
      ∙ ap (λ l. get_or (find_row k rows) l) (sym (last_value-lasting_call k calls))
      ∙ sym (find_row-run_calls k (map lasting_call calls) rows)
