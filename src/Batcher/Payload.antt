-- ===== src/Batcher/Payload.antt =====
-- What the handler of src/core/table.ts does with a payload: its sets, then its deletes. Rows stand
-- under the user's keys.
use kvdb_nodejs.Prelude.{
  ℕ, ◌+◌, ◌-◌, Option, ◌≡◌, refl, sym, ◌∙◌, ap, ◌⊎◌, inl, inr, Bool, true, false, List, [], ◌∷◌,
  none, some, Text, text_keys, find_row, find_row-upsert, find_row-remove, upsert, remove,
  if◌then◌else◌, Bool-cases, Option-cases, ◌==◌, ==_self, ==_iff, ==_of_ne, All,
}
use mathlib.Core.Bool.{false≢true}
use kvdb_nodejs.Core.Expiry.{RawEntry}
use kvdb_nodejs.Batcher.{Key, key_text, SetItem, set_op, delete_op, Pending}
use kvdb_nodejs.Batcher.Flush.{set_item, is_delete, payload_sets, payload_deletes}

unfoldable pub write_deletes : {A : Type 0} → List Key → List (Text × A) → List (Text × A)
write_deletes [] rows = rows
write_deletes (k ∷ keys) rows = write_deletes keys (remove (key_text k) rows)

-- `effectiveTtl` is the time to live less the time since the call. It can be negative, so that `now` and
-- it are added up here; the buffer stamps each item with a time that is not later than `now`.
unfoldable pub effective_expiry : ℕ → ℕ → Option ℕ → Option ℕ
effective_expiry now enqueued_at none = none
effective_expiry now enqueued_at (some ttl) = some (now + ttl - (now - enqueued_at))

module _ {V C : Type 0} where
  -- What the driver stores for an item.
  unfoldable pub stored_entry : ℕ → SetItem V C → RawEntry V
  unfolding effective_expiry
  stored_entry now i = record {
    value = i.value;
    expires_at = effective_expiry now i.enqueued_at i.ttl_ms;
  }

  unfoldable pub write_sets :
      ℕ → List (SetItem V C) → List (Text × RawEntry V) → List (Text × RawEntry V)
  unfolding stored_entry
  write_sets now [] rows = rows
  write_sets now (i ∷ items) rows =
      write_sets now items (upsert (key_text i.key) (stored_entry now i) rows)

  unfoldable pub flush_batch :
      ℕ → List (Pending V C) → List (Text × RawEntry V) → List (Text × RawEntry V)
  unfolding write_sets write_deletes payload_sets payload_deletes
  flush_batch now ops rows =
      write_deletes (payload_deletes ops) (write_sets now (payload_sets ops) rows)

  -- Nothing of the list writes the key.
  abbrev pub Misses : Text → Pending V C → Type 0
  Misses k p =
      ((i : SetItem V C) → set_item p.kind p.item ≡ some i → Path Text (key_text i.key) k → ⊥)
      × (Path Text (key_text p.key) k → ⊥)

  sets-Misses :
      (now : ℕ) (k : Text) (ops : List (Pending V C)) (rows : List (Text × RawEntry V))
      → All (Misses k) ops
      → find_row k (write_sets now (payload_sets ops) rows) ≡ find_row k rows
  unfolding write_sets payload_sets
  sets-Misses now k [] rows h = refl
  sets-Misses now k (p ∷ ops) rows h = elim (Option-cases (set_item p.kind p.item)) [
    | inl e ↦ rw (payload_sets, e) (sets-Misses now k ops rows h.1)
    | inr (i, e) ↦
        rw (payload_sets, e)
          (sets-Misses now k ops (upsert (key_text i.key) (stored_entry now i) rows) h.1
            ∙ rw
                (
                  find_row-upsert (key_text i.key) k (stored_entry now i) rows,
                  ==_of_ne (key_text i.key) k (h.0.0 i e),
                )
                refl)
  ]

  deletes-Misses :
      (k : Text) (ops : List (Pending V C)) (rows : List (Text × RawEntry V))
      → All (Misses k) ops
      → find_row k (write_deletes (payload_deletes ops) rows) ≡ find_row k rows
  unfolding write_deletes payload_deletes
  deletes-Misses k [] rows h = refl
  deletes-Misses k (p ∷ ops) rows h = elim (Bool-cases (is_delete p.kind)) [
    | inl e ↦ rw e (
        deletes-Misses k ops (remove (key_text p.key) rows) h.1
        ∙ rw (find_row-remove (key_text p.key) k rows, ==_of_ne (key_text p.key) k h.0.1) refl)
    | inr e ↦ rw e (deletes-Misses k ops rows h.1)
  ]

  -- The only operation of the key in the list is `q`.
  abbrev pub Only : Text → Pending V C → Pending V C → Type 0
  Only k q p =
      ((i : SetItem V C) → set_item p.kind p.item ≡ some i → key_text i.key ≡ key_text p.key)
      × (key_text p.key ≡ k → p ≡ q)

  unfoldable pub any_key : Text → List (Pending V C) → Bool
  any_key k [] = false
  any_key k (p ∷ ops) = let rest = any_key k ops in if key_text p.key == k then true else rest

  any_later :
      {A : Type 0} (k : Text) (p : Pending V C) (ops : List (Pending V C))
      → (key_text p.key == k) ≡ false
      → A ⊎ (any_key k (p ∷ ops) ≡ true)
      → A ⊎ (any_key k ops ≡ true)
  unfolding any_key
  any_later k p ops n (inl a) = inl a
  any_later k p ops n (inr b) = inr (rw n at b)

  -- A set of the key ends with its value in the row.
  sets-Only :
      (now : ℕ) (k : Text) (q : Pending V C) (i : SetItem V C) (ops : List (Pending V C))
      (rows : List (Text × RawEntry V))
      → All (Only k q) ops
      → set_item q.kind q.item ≡ some i
      → (find_row k rows ≡ some (stored_entry now i)) ⊎ (any_key k ops ≡ true)
      → find_row k (write_sets now (payload_sets ops) rows) ≡ some (stored_entry now i)
  unfolding write_sets payload_sets any_key
  sets-Only now k q i [] rows h e (inl f) = f
  sets-Only now k q i [] rows h e (inr f) = absurd (false≢true f)
  sets-Only now k q i (p ∷ ops) rows h e f = elim (Bool-cases (key_text p.key == k)) [
    | inl y ↦
        let here : key_text p.key ≡ k = (==_iff (key_text p.key) k).0 y in
        let own : set_item p.kind p.item ≡ some i =
          ap (λ z. set_item z.kind z.item) (h.0.1 here) ∙ e in
        rw (payload_sets, own)
          (sets-Only now k q i ops (upsert (key_text i.key) (stored_entry now i) rows) h.1 e (
            inl (
              rw
                (
                  find_row-upsert (key_text i.key) k (stored_entry now i) rows,
                  h.0.0 i own,
                  here,
                  ==_self k,
                )
                refl)))
    | inr n ↦
        let rest = any_later k p ops n f in
        elim (Option-cases (set_item p.kind p.item)) [
          | inl s ↦ rw (payload_sets, s) (sets-Only now k q i ops rows h.1 e rest)
          | inr (j, s) ↦
              rw (payload_sets, s)
                (sets-Only now k q i ops (upsert (key_text j.key) (stored_entry now j) rows) h.1 e (
                  rw (find_row-upsert (key_text j.key) k (stored_entry now j) rows, h.0.0 j s, n)
                    rest))
        ]
  ]

  deletes-Only :
      (k : Text) (q : Pending V C) (ops : List (Pending V C)) (rows : List (Text × RawEntry V))
      → All (Only k q) ops
      → is_delete q.kind ≡ true
      → (find_row k rows ≡ none) ⊎ (any_key k ops ≡ true)
      → find_row k (write_deletes (payload_deletes ops) rows) ≡ none
  unfolding write_deletes payload_deletes any_key
  deletes-Only k q [] rows h e (inl f) = f
  deletes-Only k q [] rows h e (inr f) = absurd (false≢true f)
  deletes-Only k q (p ∷ ops) rows h e f = elim (Bool-cases (key_text p.key == k)) [
    | inl y ↦
        let here : key_text p.key ≡ k = (==_iff (key_text p.key) k).0 y in
        let own : is_delete p.kind ≡ true = ap (λ z. is_delete z.kind) (h.0.1 here) ∙ e in
        rw own (
          deletes-Only k q ops (remove (key_text p.key) rows) h.1 e
            (inl (rw (find_row-remove (key_text p.key) k rows, y) refl)))
    | inr n ↦
        let rest = any_later k p ops n f in
        elim (Bool-cases (is_delete p.kind)) [
          | inl s ↦ rw s (
              deletes-Only k q ops (remove (key_text p.key) rows) h.1 e
                (rw (find_row-remove (key_text p.key) k rows, n) rest))
          | inr s ↦ rw s (deletes-Only k q ops rows h.1 e rest)
        ]
  ]

  -- A set leaves no delete of its key.
  deletes-set :
      (k : Text) (q : Pending V C) (ops : List (Pending V C)) (rows : List (Text × RawEntry V))
      → All (Only k q) ops
      → is_delete q.kind ≡ false
      → find_row k (write_deletes (payload_deletes ops) rows) ≡ find_row k rows
  unfolding write_deletes payload_deletes
  deletes-set k q [] rows h e = refl
  deletes-set k q (p ∷ ops) rows h e = elim (Bool-cases (is_delete p.kind)) [
    | inr s ↦ rw s (deletes-set k q ops rows h.1 e)
    | inl s ↦ rw s (
        deletes-set k q ops (remove (key_text p.key) rows) h.1 e
        ∙ rw
            (
              find_row-remove (key_text p.key) k rows,
              ==_of_ne (key_text p.key) k
                  (λ same. false≢true (sym e ∙ ap (λ z. is_delete z.kind) (sym (h.0.1 same)) ∙ s)),
            )
            refl)
  ]

  -- What a flush leaves in the row of a key: nothing new, the value of its set, or no row.
  pub flush_batch-Misses :
      (now : ℕ) (k : Text) (ops : List (Pending V C)) (rows : List (Text × RawEntry V))
      → All (Misses k) ops
      → find_row k (flush_batch now ops rows) ≡ find_row k rows
  unfolding flush_batch
  flush_batch-Misses now k ops rows h =
      deletes-Misses k ops (write_sets now (payload_sets ops) rows) h ∙ sets-Misses now k ops rows h

  pub flush_batch-set :
      (now : ℕ) (k : Text) (q : Pending V C) (i : SetItem V C) (ops : List (Pending V C))
      (rows : List (Text × RawEntry V))
      → All (Only k q) ops
      → any_key k ops ≡ true
      → q.kind ≡ set_op
      → q.item ≡ some i
      → find_row k (flush_batch now ops rows) ≡ some (stored_entry now i)
  unfolding flush_batch set_item is_delete
  flush_batch-set now k q i ops rows h a s e =
      deletes-set k q ops (write_sets now (payload_sets ops) rows) h (rw s refl)
      ∙ sets-Only now k q i ops rows h (rw (s, e) refl) (inr a)

  pub flush_batch-delete :
      (now : ℕ) (k : Text) (q : Pending V C) (ops : List (Pending V C))
      (rows : List (Text × RawEntry V))
      → All (Only k q) ops
      → any_key k ops ≡ true
      → q.kind ≡ delete_op
      → find_row k (flush_batch now ops rows) ≡ none
  unfolding flush_batch is_delete
  flush_batch-delete now k q ops rows h a s =
      deletes-Only k q ops (write_sets now (payload_sets ops) rows) h (rw s refl) (inr a)
