-- ===== src/Batcher/Answers.antt =====
-- src/core/batcher.ts: the answers to the callers of a window.
use kvdb_nodejs.Prelude.{
  ℕ, suc, ◌+◌, ◌≤◌, ◌<◌, ◌≡◌, refl, ◌∙◌, ap, inl, inr, Bool, true, List, [], ◌∷◌, map, none, some,
  Text, arith, text_keys, find_row, upsert, length, length-append, Bool-cases, ◌==◌,
}
use kvdb_nodejs.Core.Failure.{Failure, Result, ok, err}
use kvdb_nodejs.Batcher.{Key, OpType, set_op, delete_op, Pending, idle, Batcher, merge_delete_in}
use kvdb_nodejs.Batcher.Flush.{flush, finish_flush, land, settle, settle_all, reject_all, sort_ops}
use kvdb_nodejs.Batcher.Coalesce.{Call, set_of, delete_of, call_key, merge_call, fold_calls}
use kvdb_nodejs.Batcher.Snapshot.{operations, total, total-sort_ops}
use kvdb_nodejs.Batcher.Window.{call_all, clean_call, window-snapshot}

length-map : {A B : Type 0} (f : A → B) (xs : List A) → length (map f xs) ≡ length xs
length-map f [] = refl
length-map f (x ∷ xs) = omega (arith, length-map f xs)

module _ {V C : Type 0} where
  heard : Pending V C → ℕ
  heard p = length p.resolves

  refused : Pending V C → ℕ
  refused p = length p.rejects

  -- The number of an operation that each call raises by one.
  record Grows (w : Pending V C → ℕ) : Type 0 where
    starts : (n : ℕ) (c : Call V C) → w (merge_call n c none) ≡ 1
    adds : (n : ℕ) (c : Call V C) (p : Pending V C) → w (merge_call n c (some p)) ≡ suc (w p)

  heard-delete :
      (o : OpType) (n : ℕ) (p : Pending V C)
      → length (merge_delete_in o n p).resolves ≡ suc (length p.resolves)
  unfolding merge_delete_in
  heard-delete set_op n p = length-append _ (_ ∷ []) ∙ omega (arith, length-map _ p.resolves)
  heard-delete delete_op n p = omega (arith, length-append p.resolves (_ ∷ []))

  refused-delete :
      (o : OpType) (n : ℕ) (p : Pending V C)
      → length (merge_delete_in o n p).rejects ≡ suc (length p.rejects)
  unfolding merge_delete_in
  refused-delete set_op n p = omega (arith, length-append p.rejects (n ∷ []))
  refused-delete delete_op n p = omega (arith, length-append p.rejects (n ∷ []))

  heard-adds :
      (n : ℕ) (c : Call V C) (p : Pending V C) → heard (merge_call n c (some p)) ≡ suc (heard p)
  unfolding heard merge_call
  heard-adds n (set_of i) p = omega (arith, length-append p.resolves (_ ∷ []))
  heard-adds n (delete_of k) p = heard-delete p.kind n p

  refused-adds :
      (n : ℕ) (c : Call V C) (p : Pending V C) → refused (merge_call n c (some p)) ≡ suc (refused p)
  unfolding refused merge_call
  refused-adds n (set_of i) p = omega (arith, length-append p.rejects (n ∷ []))
  refused-adds n (delete_of k) p = refused-delete p.kind n p

  heard-starts : (n : ℕ) (c : Call V C) → heard (merge_call n c none) ≡ 1
  unfolding heard merge_call
  heard-starts n (set_of i) = refl
  heard-starts n (delete_of k) = refl

  refused-starts : (n : ℕ) (c : Call V C) → refused (merge_call n c none) ≡ 1
  unfolding refused merge_call
  refused-starts n (set_of i) = refl
  refused-starts n (delete_of k) = refl

  total-upsert :
      (w : Pending V C → ℕ) (k : Text) (v : Pending V C) (ops : List (Text × Pending V C))
      → (find_row k ops ≡ none → w v ≡ 1)
      → ((p : Pending V C) → find_row k ops ≡ some p → w v ≡ suc (w p))
      → total w (operations (upsert k v ops)) ≡ suc (total w (operations ops))
  unfolding total upsert find_row
  total-upsert w k v [] one more = omega (arith, one refl)
  total-upsert w k v ((j, p) ∷ ops) one more = elim (Bool-cases (j == k)) [
    | inl y ↦ rw y (omega (arith, more p (rw y refl)))
    | inr n ↦
        rw n (omega (arith, total-upsert w k v ops (λ e. one (rw n e)) (λ q e. more q (rw n e))))
  ]

  merged :
      (w : Pending V C → ℕ) (n : ℕ) (c : Call V C) (ops : List (Text × Pending V C))
      → Grows w
      → total w (operations (upsert (call_key c) (merge_call n c (find_row (call_key c) ops)) ops))
        ≡ suc (total w (operations ops))
  merged w n c ops g =
      total-upsert w (call_key c) (merge_call n c (find_row (call_key c) ops)) ops
        (λ e. ap (λ o. w (merge_call n c o)) e ∙ g.starts n c)
        (λ p e. ap (λ o. w (merge_call n c o)) e ∙ g.adds n c p)

  total-fold_calls :
      (w : Pending V C → ℕ) (n : ℕ) (calls : List (Call V C)) (ops : List (Text × Pending V C))
      → Grows w
      → total w (operations (fold_calls n calls ops)) ≡ total w (operations ops) + length calls
  unfolding fold_calls
  total-fold_calls w n [] ops g = omega arith
  total-fold_calls w n (c ∷ calls) ops g = omega (
    arith,
    total-fold_calls w (suc n) calls
        (upsert (call_key c) (merge_call n c (find_row (call_key c) ops)) ops) g,
    merged w n c ops g,
  )

  length-settle_all :
      (d : Key → Bool) (ops : List (Pending V C)) → length (settle_all d ops) ≡ total heard ops
  unfolding settle_all total heard
  length-settle_all d [] = refl
  length-settle_all d (p ∷ ops) =
      length-append (map _ p.resolves) (settle_all d ops)
      ∙ omega (arith, length-map _ p.resolves, length-settle_all d ops)

  length-reject_all :
      (e : Failure) (ops : List (Pending V C)) → length (reject_all e ops) ≡ total refused ops
  unfolding reject_all total refused
  length-reject_all e [] = refl
  length-reject_all e (p ∷ ops) =
      length-append (map _ p.rejects) (reject_all e ops)
      ∙ omega (arith, length-map _ p.rejects, length-reject_all e ops)

  length-settle :
      (r : Result (Key → Bool)) (n : ℕ) (calls : List (Call V C))
      → length (settle r (sort_ops (operations (fold_calls n calls [])))) ≡ length calls
  unfolding settle total
  length-settle (ok d) n calls =
      length-settle_all d (sort_ops (operations (fold_calls n calls [])))
      ∙ total-sort_ops heard (operations (fold_calls n calls []))
      ∙ total-fold_calls heard n calls [] (record { starts = heard-starts; adds = heard-adds })
      ∙ omega arith
  length-settle (err e) n calls =
      length-reject_all e (sort_ops (operations (fold_calls n calls [])))
      ∙ total-sort_ops refused (operations (fold_calls n calls []))
      ∙ total-fold_calls refused n calls []
          (record { starts = refused-starts; adds = refused-adds })
      ∙ omega arith

  -- From an idle, empty, coalescing buffer, a window of calls too short to fill it is answered in full
  -- when its flush lands: as many answers as calls, whether the handler returns or throws.
  pub window_answered :
      (r : Result (Key → Bool)) (n : ℕ) (c : Call V C) (calls : List (Call V C)) (b : Batcher V C)
      → b.options.coalesce ≡ true
      → b.active ≡ idle
      → b.pending_map ≡ []
      → b.completed_seq ≤ b.current_seq
      → length (c ∷ calls) < b.options.max_batch_size
      → length (finish_flush r (flush (call_all n (c ∷ calls) b))).0 ≡ length (c ∷ calls)
  unfolding finish_flush land
  window_answered r n c calls b on off empty fits short =
      let (f, takes, folded) = window-snapshot n c calls b on off empty fits short in
      let flying = flush (call_all n (c ∷ calls) b) in
      ap (λ a. length (land r flying a).0) takes
      ∙ ap (λ ops. length (settle r ops)) folded
      ∙ length-settle r n (map clean_call (c ∷ calls))
      ∙ length-map clean_call (c ∷ calls)
