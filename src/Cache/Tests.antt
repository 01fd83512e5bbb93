-- ===== src/Cache/Tests.antt =====
-- A cache of two small memory stores.
use kvdb_nodejs.Prelude.{
  ℕ, zero, suc, ◌≡◌, ◌⊎◌, refl, ◌∙◌, inl, inr, true, false, List, [], ◌∷◌, Option, none, some, Text,
  text_keys, text_beq, ◌==◌, ==_iff, ==_self, codes, take, find_row, remove, find_row-remove,
  is_some, arith,
}
use kvdb_nodejs.Core.Expiry.{RawEntry}
use kvdb_nodejs.Cache.{
  LruCache, memory_store, memory_has, read_raw, cache_get, wrap, hit, computed, cache_runs,
}
use kvdb_nodejs.Cache.Laws.{Kept, Kept-trans, entry_from}
use kvdb_nodejs.Cache.Memory.{IsLru, memory_store-IsStore}
use kvdb_nodejs.Cache.Lossy.{Call, get_call, set_call, cache_run, run-Lossy}
use kvdb_nodejs.Cache.Wrap.{wrap_memoizes}

abbrev Pairs : Type 0
Pairs = List (Text × RawEntry ℕ)

-- A cache of two entries, where a third one evicts the oldest.
abbrev pair : LruCache Pairs ℕ
pair = record {
  hit = λ k c. find_row k c;
  touch = λ k c. c;
  put = λ k e c. take 2 ((k, e) ∷ remove k c);
  drop_key = λ k c. (is_some (find_row k c), remove k c);
  drop_all = λ c. [];
}

find_row-take : (n : ℕ) (j : Text) (c : Pairs) → Kept (find_row j c) (find_row j (take n c))
unfolding find_row
find_row-take zero j c = inl refl
find_row-take (suc n) j [] = inl refl
find_row-take (suc n) j ((i, e) ∷ c) = ground (arith, find_row-take n j c)

remove_other : (k j : Text) (c : Pairs) → (j == k) ≡ false → find_row j (remove k c) ≡ find_row j c
remove_other k j c n = ground (arith, find_row-remove k j c, ==_iff k j, ==_iff j k, n)

apart : (k j : Text) → (j == k) ≡ false → (k == j) ≡ false
apart k j n = ground (arith, ==_iff k j, ==_iff j k, n)

put_other :
    (k j : Text) (e : RawEntry ℕ) (c : Pairs)
    → (j == k) ≡ false
    → Kept (find_row j c) (find_row j (take 2 ((k, e) ∷ remove k c)))
unfolding find_row
put_other k j e c n = rw (apart k j n) (
    Kept-trans (find_row j c) (find_row j (remove k c)) _ (inr (remove_other k j c n))
      (find_row-take 1 j (remove k c)))

pair-IsLru : IsLru pair
unfolding find_row
pair-IsLru = record {
  touch_same = λ k j c. refl;
  put_own = λ k e c. rw (==_self k) refl;
  put_other = put_other;
  drop_own = λ k c. find_row-remove k k c ∙ rw (==_self k) refl;
  drop_other = remove_other;
  drop_all_none = λ j c. refl;
}

abbrev a : Text
a = codes "a"

abbrev b : Text
b = codes "b"

abbrev c : Text
c = codes "c"

-- The second store has an entry that the first has not.
abbrev stores : List Pairs
stores = [] ∷ ((a, entry_from 0 7 (some 100)) ∷ []) ∷ []

-- A read of `a` puts it into the first store with the expiry that it has.
backfilled :
    (read_raw (memory_store pair) 40 a stores).1
    ≡ ((a, entry_from 0 7 (some 100)) ∷ []) ∷ ((a, entry_from 0 7 (some 100)) ∷ []) ∷ []
unfolding cache_runs find_row text_beq remove
backfilled = refl

-- `b` and `c` evict `a` from both stores.
evicted :
    (cache_get (memory_store pair) 50 a (
      cache_run none
        (memory_store pair)
        (set_call 10 b (some 1) none ∷ set_call 20 c (some 2) none ∷ [])
        stores)).0
    ≡ none
unfolding cache_runs find_row text_beq remove
evicted = refl

expired_has : memory_has pair 100 a ((a, entry_from 0 7 (some 100)) ∷ []) ≡ (false, [])
unfolding cache_runs find_row text_beq remove
expired_has = refl

abbrev calls : List (Call ℕ)
calls =
    get_call 5 a
    ∷ set_call 10 b (some 1) none
    ∷ set_call 20 a (some 9) (some 50)
    ∷ get_call 30 b
    ∷ []

abbrev before : Text → Option (RawEntry ℕ)
before k = find_row k ((a, entry_from 0 7 (some 100)) ∷ [])

run-Lossy_example :
    Kept
      (some (entry_from 20 9 (some 50)))
      (read_raw (memory_store pair) 69 a (cache_run none (memory_store pair) calls stores)).0
unfolding cache_runs find_row text_beq
run-Lossy_example =
    run-Lossy (memory_store pair) (λ k s. find_row k s) (memory_store-IsStore pair pair-IsLru) none
      calls before stores 69 a ((λ j. inl refl), ((λ j. inr refl), tt))

-- Calls between two calls of `wrap` for `b`.
abbrev others : List (Call ℕ)
others = set_call 30 c (some 2) none ∷ get_call 40 b ∷ []

wrap_memoizes_example :
    (let left = (wrap (memory_store pair) (some 60) 0 b (some 1) none none stores).1 in
      ((wrap (memory_store pair) (some 60) 59 b (some 2) none (some 10) left).0 ≡ hit 1 true)
      × (((wrap
              (memory_store pair)
              (some 60)
              59
              b
              (some 2)
              none
              (some 10)
              (cache_run (some 60) (memory_store pair) others left)).0
            ≡ hit 1 true)
          ⊎ ((wrap
                (memory_store pair)
                (some 60)
                59
                b
                (some 2)
                none
                (some 10)
                (cache_run (some 60) (memory_store pair) others left)).0
              ≡ computed (some 2))))
unfolding cache_runs find_row text_beq
wrap_memoizes_example =
    wrap_memoizes (memory_store pair) (λ k s. find_row k s) (memory_store-IsStore pair pair-IsLru)
      (some 60) 0 59 b 1 (some 2) none none none (some 10) before stores others
      ((λ j. inl refl), ((λ j. inr refl), tt)) (omega arith) refl refl (refl, (tt, tt))
