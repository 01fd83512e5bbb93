-- ===== src/Batcher/Lookup.antt =====
-- src/core/batcher.ts: what a look into the buffer finds.
use kvdb_nodejs.Prelude.{
  ◌≡◌, refl, sym, ap, ◌∙◌, inl, inr, true, false, List, [], ◌∷◌, none, some, Text, text_keys,
  find_row, All, Bool-cases, Option-cases, ◌==◌, ==_of_ne, ==_iff,
}
use mathlib.Core.Bool.{false≢true}
use kvdb_nodejs.Batcher.{key_text, Pending}
use kvdb_nodejs.Batcher.Flush.{last_op, sort_ops}
use kvdb_nodejs.Batcher.Payload.{Misses, Only, any_key}
use kvdb_nodejs.Batcher.Coalesce.{IsMap}
use kvdb_nodejs.Batcher.Snapshot.{operations, snapshot-Misses, snapshot-Only, snapshot-any_key}

module _ {V C : Type 0} where
  -- The last operation of a key among sorted ones is the one of the map.
  last_op-Misses : (k : Text) (ops : List (Pending V C)) → All (Misses k) ops → last_op k ops ≡ none
  unfolding last_op
  last_op-Misses k [] h = refl
  last_op-Misses k (p ∷ ops) h =
      rw (last_op, last_op-Misses k ops h.1) (rw (==_of_ne (key_text p.key) k h.0.1) refl)

  last_op-absent :
      (k : Text) (ops : List (Pending V C)) → any_key k ops ≡ false → last_op k ops ≡ none
  unfolding last_op any_key
  last_op-absent k [] h = refl
  last_op-absent k (p ∷ ops) h = elim (Bool-cases (key_text p.key == k)) [
    | inl y ↦ absurd (false≢true (sym (rw y at h)))
    | inr n ↦ rw (last_op, last_op-absent k ops (rw n at h)) (rw n refl)
  ]

  last_op-Only :
      (k : Text) (q : Pending V C) (ops : List (Pending V C))
      → All (Only k q) ops
      → any_key k ops ≡ true
      → last_op k ops ≡ some q
  unfolding last_op any_key
  last_op-Only k q [] h a = absurd (false≢true a)
  last_op-Only k q (p ∷ ops) h a = elim (Bool-cases (any_key k ops)) [
    | inl y ↦ rw (last_op, last_op-Only k q ops h.1 y) refl
    | inr n ↦
        rw (last_op, last_op-absent k ops n)
          (elim (Bool-cases (key_text p.key == k)) [
            | inl y ↦ rw y (ap some (h.0.1 ((==_iff (key_text p.key) k).0 y)))
            | inr m ↦ absurd (false≢true (sym n ∙ (rw m at a)))
          ])
  ]

  pub last_op-sort_ops :
      (k : Text) (ops : List (Text × Pending V C))
      → IsMap ops
      → last_op k (sort_ops (operations ops)) ≡ find_row k ops
  last_op-sort_ops k ops m = elim (Option-cases (find_row k ops)) [
    | inl e ↦ last_op-Misses k (sort_ops (operations ops)) (snapshot-Misses k ops m e) ∙ sym e
    | inr (q, e) ↦
        last_op-Only k q (sort_ops (operations ops)) (snapshot-Only k ops q m e)
          (snapshot-any_key k ops q m e)
        ∙ sym e
  ]
