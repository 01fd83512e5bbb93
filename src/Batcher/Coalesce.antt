-- ===== src/Batcher/Coalesce.antt =====
-- src/core/batcher.ts: the calls of a window, and the map of pending operations that they make.
use kvdb_nodejs.Prelude.{
  ℕ, suc, ◌≡◌, refl, sym, ◌∙◌, ap, inl, inr, Bool, true, false, List, [], ◌∷◌, Option, none, some,
  Text, text_keys, find_row, find_row-upsert, find_row-remove, upsert, remove, or_else, get_or,
  if◌then◌else◌, Bool-cases, ◌==◌, All, All-upsert, All-find, Distinct, Distinct-upsert,
  some_injective, some_ne_none,
}
use kvdb_nodejs.Batcher.{
  Key, key_text, SetItem, OpType, set_op, delete_op, Pending, merge_set, merge_delete,
  merge_delete_in,
}
use kvdb_nodejs.Batcher.Flush.{set_item}

-- A call of a table with a buffer.
pub data Call (V C : Type 0) : Type 0 where
  set_of : SetItem V C → Call V C
  delete_of : Key → Call V C

last_step :
    {V : Type 0} (b : Bool) (v w : Option V) (l : Option (Option V))
    → get_or (if b then v else w) l ≡ get_or w (or_else l (if b then some v else none))
last_step true v w none = refl
last_step false v w none = refl
last_step b v w (some x) = refl

last_or :
    {A : Type 0} (b : Bool) (v : A) (l e : Option A)
    → or_else l (if b then some v else e) ≡ or_else (or_else l (if b then some v else none)) e
last_or true v none e = refl
last_or false v none e = refl
last_or b v (some x) e = refl

module _ {V C : Type 0} where
  abbrev pub call_key : Call V C → Text
  call_key (set_of i) = key_text i.key
  call_key (delete_of k) = key_text k

  -- The value that a call leaves.
  abbrev pub call_value : Call V C → Option V
  call_value (set_of i) = some i.value
  call_value (delete_of k) = none

  -- One call at a time.
  unfoldable pub run_calls : List (Call V C) → List (Text × V) → List (Text × V)
  run_calls [] rows = rows
  run_calls (set_of i ∷ calls) rows = run_calls calls (upsert (key_text i.key) i.value rows)
  run_calls (delete_of k ∷ calls) rows = run_calls calls (remove (key_text k) rows)

  unfoldable pub merge_call : ℕ → Call V C → Option (Pending V C) → Pending V C
  unfolding merge_set merge_delete
  merge_call n (set_of i) p = merge_set n i p
  merge_call n (delete_of k) p = merge_delete n k p

  -- The map of pending operations after the calls, each with its caller's number.
  unfoldable pub fold_calls :
      ℕ → List (Call V C) → List (Text × Pending V C) → List (Text × Pending V C)
  unfolding merge_call
  fold_calls n [] ops = ops
  fold_calls n (c ∷ calls) ops =
      fold_calls (suc n) calls
        (upsert (call_key c) (merge_call n c (find_row (call_key c) ops)) ops)

  -- The value of the last call of a key, if there is one.
  unfoldable pub last_value : Text → List (Call V C) → Option (Option V)
  last_value k [] = none
  last_value k (c ∷ calls) =
      or_else (last_value k calls) (if call_key c == k then some (call_value c) else none)

  pub find_row-run_calls :
      (k : Text) (calls : List (Call V C)) (rows : List (Text × V))
      → find_row k (run_calls calls rows) ≡ get_or (find_row k rows) (last_value k calls)
  unfolding run_calls last_value
  find_row-run_calls k [] rows = refl
  find_row-run_calls k (set_of i ∷ calls) rows =
      rw
        (
          find_row-run_calls k calls (upsert (key_text i.key) i.value rows),
          find_row-upsert (key_text i.key) k i.value rows,
        )
        (last_step (key_text i.key == k) (some i.value) (find_row k rows) (last_value k calls))
  find_row-run_calls k (delete_of j ∷ calls) rows =
      rw
        (find_row-run_calls k calls (remove (key_text j) rows), find_row-remove (key_text j) k rows)
        (last_step (key_text j == k) none (find_row k rows) (last_value k calls))

  -- The operation does what the last call of its key did.
  abbrev pub Does : Option V → Pending V C → Type 0
  Does none p = p.kind ≡ delete_op
  Does (some v) p = (p.kind ≡ set_op) × ((i : SetItem V C) × (p.item ≡ some i) × (i.value ≡ v))

  -- The operation stands under its key, and so does its item.
  abbrev pub Keyed : Text × Pending V C → Type 0
  Keyed row =
      (key_text row.1.key ≡ row.0)
      × ((i : SetItem V C) → set_item row.1.kind row.1.item ≡ some i → key_text i.key ≡ row.0)

  merge_delete_in-kind :
      (o : OpType) (n : ℕ) (p : Pending V C) → p.kind ≡ o → (merge_delete_in o n p).kind ≡ delete_op
  unfolding merge_delete_in
  merge_delete_in-kind set_op n p e = refl
  merge_delete_in-kind delete_op n p e = e

  merge_delete_in-key : (o : OpType) (n : ℕ) (p : Pending V C) → (merge_delete_in o n p).key ≡ p.key
  unfolding merge_delete_in
  merge_delete_in-key set_op n p = refl
  merge_delete_in-key delete_op n p = refl

  no_item :
      (o : OpType) (item : Option (SetItem V C)) (i : SetItem V C)
      → o ≡ delete_op
      → set_item o item ≡ some i
      → ⊥
  unfolding set_item
  no_item o item i e f = some_ne_none (sym f ∙ rw e refl)

  merge_call-Does :
      (n : ℕ) (c : Call V C) (o : Option (Pending V C)) → Does (call_value c) (merge_call n c o)
  unfolding merge_call
  merge_call-Does n (set_of i) none = (refl, (_, refl, refl))
  merge_call-Does n (set_of i) (some p) = (refl, (_, refl, refl))
  merge_call-Does n (delete_of k) none = refl
  merge_call-Does n (delete_of k) (some p) = merge_delete_in-kind p.kind n p refl

  merge_call-Keyed :
      (n : ℕ) (c : Call V C) (o : Option (Pending V C))
      → ((p : Pending V C) → o ≡ some p → key_text p.key ≡ call_key c)
      → Keyed (call_key c, merge_call n c o)
  unfolding merge_call set_item
  merge_call-Keyed n (set_of i) none h =
      (refl, λ j e. ap (λ x. key_text x.key) (sym (some_injective e)))
  merge_call-Keyed n (set_of i) (some p) h =
      (h p refl, λ j e. ap (λ x. key_text x.key) (sym (some_injective e)))
  merge_call-Keyed n (delete_of k) none h = (refl, λ j e. absurd (some_ne_none (sym e)))
  merge_call-Keyed n (delete_of k) (some p) h = (
    ap (λ x. key_text x) (merge_delete_in-key p.kind n p) ∙ h p refl,
    λ j e. absurd (no_item _ _ j (merge_delete_in-kind p.kind n p refl) e),
  )

  -- The pending operation of a key, where `e` is what its last call did.
  abbrev pub Pend : Text → List (Text × Pending V C) → Option (Option V) → Type 0
  Pend k ops none = find_row k ops ≡ none
  Pend k ops (some x) = (p : Pending V C) × (find_row k ops ≡ some p) × Does x p

  Pend-same :
      (k : Text) (ops ops' : List (Text × Pending V C)) (e : Option (Option V))
      → find_row k ops' ≡ find_row k ops
      → Pend k ops e
      → Pend k ops' e
  Pend-same k ops ops' none same h = same ∙ h
  Pend-same k ops ops' (some x) same (p, f, does) = (p, same ∙ f, does)

  Pend-upsert :
      (k : Text) (n : ℕ) (c : Call V C) (ops : List (Text × Pending V C)) (e : Option (Option V))
      → Pend k ops e
      → Pend k
          (upsert (call_key c) (merge_call n c (find_row (call_key c) ops)) ops)
          (if call_key c == k then some (call_value c) else e)
  Pend-upsert k n c ops e h =
      let merged = merge_call n c (find_row (call_key c) ops) in
      elim (Bool-cases (call_key c == k)) [
        | inl y ↦ rw y (
          merged,
          rw (find_row-upsert (call_key c) k merged ops, y) refl,
          merge_call-Does n c (find_row (call_key c) ops),
        )
        | inr m ↦ rw m (
            Pend-same k ops (upsert (call_key c) merged ops) e
              (rw (find_row-upsert (call_key c) k merged ops, m) refl) h)
      ]

  pub fold_calls-Pend :
      (k : Text) (n : ℕ) (calls : List (Call V C)) (ops : List (Text × Pending V C))
      (e : Option (Option V))
      → Pend k ops e
      → Pend k (fold_calls n calls ops) (or_else (last_value k calls) e)
  unfolding fold_calls last_value
  fold_calls-Pend k n [] ops e h = h
  fold_calls-Pend k n (c ∷ calls) ops e h =
      rw (last_or (call_key c == k) (call_value c) (last_value k calls) e) at
        (fold_calls-Pend k (suc n) calls _ _ (Pend-upsert k n c ops e h))

  -- What the map keeps: no key twice, and each operation under its key.
  abbrev pub IsMap : List (Text × Pending V C) → Type 0
  IsMap ops = Distinct ops × All Keyed ops

  pub fold_calls-IsMap :
      (n : ℕ) (calls : List (Call V C)) (ops : List (Text × Pending V C))
      → IsMap ops
      → IsMap (fold_calls n calls ops)
  unfolding fold_calls
  fold_calls-IsMap n [] ops h = h
  fold_calls-IsMap n (c ∷ calls) ops (d, keyed) =
      let merged = merge_call n c (find_row (call_key c) ops) in
      fold_calls-IsMap (suc n) calls (upsert (call_key c) merged ops) (
        Distinct-upsert (call_key c) merged ops d,
        All-upsert Keyed (call_key c) merged ops
            (merge_call-Keyed n c (find_row (call_key c) ops)
              (λ p e. (All-find Keyed (call_key c) ops p keyed e).0))
            keyed,
      )
