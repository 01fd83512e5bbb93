-- ===== src/Batcher/Lifetime.antt =====
-- src/core/batcher.ts: calls and operations without a lifetime.
use kvdb_nodejs.Prelude.{
  ℕ, suc, ◌≡◌, refl, sym, ap, ◌∙◌, inl, inr, Bool, true, false, List, [], ◌∷◌, map, Option, none,
  some, Text, text_keys, find_row, upsert, All, All-upsert, All-find, Option-cases, or_else,
  if◌then◌else◌, ◌==◌, some_injective, some_ne_none,
}
use kvdb_nodejs.Core.Expiry.{RawEntry}
use kvdb_nodejs.Batcher.{
  key_text, SetItem, set_op, delete_op, Pending, OpType, merge_delete_in, merge_set, merge_delete,
}
use kvdb_nodejs.Batcher.Coalesce.{
  Call, set_of, delete_of, call_key, merge_call, fold_calls, last_value,
}

module _ {V : Type 0} where
  abbrev pub lasting : V → RawEntry V
  lasting v = record { value = v; expires_at = none }

  abbrev pub lasting_value : Option (Option V) → Option (Option (RawEntry V))
  lasting_value none = none
  lasting_value (some none) = some none
  lasting_value (some (some v)) = some (some (lasting v))

  lasting_last :
      (b : Bool) (v : Option V) (l : Option (Option V))
      → lasting_value (or_else l (if b then some v else none))
        ≡ or_else (lasting_value l) (if b then lasting_value (some v) else none)
  lasting_last true none none = refl
  lasting_last true (some v) none = refl
  lasting_last false v none = refl
  lasting_last b v (some none) = refl
  lasting_last b v (some (some x)) = refl

module _ {V C : Type 0} where
  -- Nothing expires.
  abbrev pub Timeless : Call V C → Type 0
  Timeless (set_of i) = i.ttl_ms ≡ none
  Timeless (delete_of k) = Unit

  abbrev pub Lasting : Text × Pending V C → Type 0
  Lasting row = (i : SetItem V C) → row.1.item ≡ some i → i.ttl_ms ≡ none

  merge_delete_in-Lasting :
      (o : OpType) (n : ℕ) (p : Pending V C)
      → ((i : SetItem V C) → p.item ≡ some i → i.ttl_ms ≡ none)
      → (i : SetItem V C) → (merge_delete_in o n p).item ≡ some i
      → i.ttl_ms ≡ none
  unfolding merge_delete_in
  merge_delete_in-Lasting set_op n p h i e = absurd (some_ne_none (sym e))
  merge_delete_in-Lasting delete_op n p h i e = h i e

  merge_call-Lasting :
      (n : ℕ) (c : Call V C) (o : Option (Pending V C))
      → Timeless c
      → ((p : Pending V C) → o ≡ some p → Lasting (call_key c, p))
      → Lasting (call_key c, merge_call n c o)
  unfolding merge_call merge_set merge_delete
  merge_call-Lasting n (set_of i) none t h j e = ap (λ x. x.ttl_ms) (sym (some_injective e)) ∙ t
  merge_call-Lasting n (set_of i) (some p) t h j e =
      ap (λ x. x.ttl_ms) (sym (some_injective e)) ∙ elim (Option-cases p.item) [
        | inl absent ↦ rw (t, absent) refl
        | inr (i', there) ↦ rw (t, there) (h p refl i' there)
      ]
  merge_call-Lasting n (delete_of k) none t h j e = absurd (some_ne_none (sym e))
  merge_call-Lasting n (delete_of k) (some p) t h j e =
      merge_delete_in-Lasting p.kind n p (h p refl) j e

  pub fold_calls-Lasting :
      (n : ℕ) (calls : List (Call V C)) (ops : List (Text × Pending V C))
      → All Timeless calls
      → All Lasting ops
      → All Lasting (fold_calls n calls ops)
  unfolding fold_calls
  fold_calls-Lasting n [] ops t h = h
  fold_calls-Lasting n (c ∷ calls) ops t h =
      let merged = merge_call n c (find_row (call_key c) ops) in
      fold_calls-Lasting (suc n) calls (upsert (call_key c) merged ops) t.1 (
        All-upsert Lasting (call_key c) merged ops
          (merge_call-Lasting n c (find_row (call_key c) ops) t.0
            (λ p e. All-find Lasting (call_key c) ops p h e))
          h)

  -- The call that writes the value as an entry without an expiry.
  abbrev pub lasting_call : Call V C → Call (RawEntry V) C
  lasting_call (set_of i) = set_of (record {
    key = i.key;
    value = lasting i.value;
    keys = i.keys;
    ttl_ms = i.ttl_ms;
    enqueued_at = i.enqueued_at;
  })
  lasting_call (delete_of k) = delete_of k

  pub last_value-lasting_call :
      (k : Text) (calls : List (Call V C))
      → last_value k (map lasting_call calls) ≡ lasting_value (last_value k calls)
  unfolding last_value
  last_value-lasting_call k [] = refl
  last_value-lasting_call k (set_of i ∷ calls) =
      rw (last_value-lasting_call k calls)
        (sym (lasting_last (key_text i.key == k) (some i.value) (last_value k calls)))
  last_value-lasting_call k (delete_of j ∷ calls) =
      rw (last_value-lasting_call k calls)
        (sym (lasting_last (key_text j == k) none (last_value k calls)))
