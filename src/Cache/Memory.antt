-- ===== src/Cache/Memory.antt =====
-- src/cache/stores/memory-store.ts keeps the promises of a store, over an LRUCache that keeps its own.
use kvdb_nodejs.Prelude.{
  ℕ, ◌≡◌, refl, ap, ◌∙◌, inl, inr, false, Option, none, some, Text, text_keys, ◌==◌, Bool-cases,
  ==_iff,
}
use kvdb_nodejs.Core.Expiry.{RawEntry, is_expired}
use kvdb_nodejs.Cache.{LruCache, memory_reply, memory_get, memory_set, memory_store}
use kvdb_nodejs.Cache.Laws.{Kept, Kept-trans, live_at, entry_from, IsStore}

-- What the package documents: an entry that was put is there, a put may evict other entries, `get`
-- changes only how recent its entry is, `delete` drops one key and `clear` all.
pub record IsLru {C V : Type 0} (lru : LruCache C V) : Type 0 where
  pub touch_same : (k j : Text) (c : C) → lru.hit j (lru.touch k c) ≡ lru.hit j c
  pub put_own : (k : Text) (e : RawEntry V) (c : C) → lru.hit k (lru.put k e c) ≡ some e
  pub put_other :
      (k j : Text) (e : RawEntry V) (c : C)
      → (j == k) ≡ false
      → Kept (lru.hit j c) (lru.hit j (lru.put k e c))
  pub drop_own : (k : Text) (c : C) → lru.hit k (lru.drop_key k c).1 ≡ none
  pub drop_other :
      (k j : Text) (c : C) → (j == k) ≡ false → lru.hit j (lru.drop_key k c).1 ≡ lru.hit j c
  pub drop_all_none : (j : Text) (c : C) → lru.hit j (lru.drop_all c) ≡ none

module _ {C V : Type 0} (lru : LruCache C V) (laws : IsLru lru) where
  drop-Kept : (k j : Text) (c : C) → Kept (lru.hit j c) (lru.hit j (lru.drop_key k c).1)
  drop-Kept k j c = elim (Bool-cases (j == k)) [
    | inl y ↦ inl (ap (λ i. lru.hit i (lru.drop_key k c).1) ((==_iff j k).0 y) ∙ laws.drop_own k c)
    | inr n ↦ inr (laws.drop_other k j c n)
  ]

  reply_live :
      (now : ℕ) (k : Text) (c : C) (p : Option (RawEntry V))
      → (memory_reply lru now k c p).0 ≡ live_at now p
  reply_live now k c none = refl
  reply_live now k c (some e) = elim (Bool-cases (is_expired e now)) [
    | inl y ↦ rw y refl
    | inr n ↦ rw n refl
  ]

  reply_keeps :
      (now : ℕ) (k j : Text) (c : C) (p : Option (RawEntry V))
      → Kept (lru.hit j c) (lru.hit j (memory_reply lru now k c p).1)
  reply_keeps now k j c none = inr refl
  reply_keeps now k j c (some e) = elim (Bool-cases (is_expired e now)) [
    | inl y ↦ rw y (drop-Kept k j c)
    | inr n ↦ rw n (inr refl)
  ]

  pub memory_store-IsStore : IsStore (memory_store lru) lru.hit
  unfolding memory_get memory_set
  memory_store-IsStore = record {
    get_live = λ now k s. reply_live now k (lru.touch k s) (lru.hit k s);
    get_keeps = λ now k j s.
        Kept-trans (lru.hit j s) (lru.hit j (lru.touch k s)) _ (inr (laws.touch_same k j s))
          (reply_keeps now k j (lru.touch k s) (lru.hit k s));
    set_own = λ now k v ttl s. laws.put_own k (entry_from now v ttl) s;
    set_other = λ now k j v ttl s n. laws.put_other k j (entry_from now v ttl) s n;
    delete_own = laws.drop_own;
    delete_other = λ k j s n. inr (laws.drop_other k j s n);
    clear_all = laws.drop_all_none;
  }
