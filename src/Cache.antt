-- ===== src/Cache.antt =====
-- src/cache/cache.ts: a cache over an ordered list of stores, and src/cache/stores/memory-store.ts over
-- the LRUCache of a package, which is a parameter.
pub mod Laws
pub mod Lossy
pub mod Memory
pub mod Wrap
mod Tests
use kvdb_nodejs.Prelude.{
  ℕ, ◌+◌, ◌≡◌, refl, Bool, true, false, ◌||◌, List, [], ◌∷◌, ◌++◌, map, Option, none, some, Text,
  text_keys, ◌==◌, if◌then◌else◌, ltb, max, or_else, is_some, is_prefix, filter,
}
use kvdb_nodejs.Core.Expiry.{
  RawEntry, Remaining, forever, left, overdue, expires_at_from_ttl, passed, is_expired,
  remaining_of, remaining_ttl,
}

-- `KVStore` on a state `S`: what the cache calls. A cache of several kinds of stores has a sum of their
-- states.
pub record KvStore (S V : Type 0) : Type 0 where
  pub get : ℕ → Text → S → Option (RawEntry V) × S
  pub set : ℕ → Text → V → Option ℕ → S → S
  pub delete : Text → S → Bool × S
  pub clear : S → S

-- An LRUCache from texts to entries. `hit` is what `get` returns and `touch` what it leaves.
pub record LruCache (C V : Type 0) : Type 0 where
  pub hit : Text → C → Option (RawEntry V)
  pub touch : Text → C → C
  pub put : Text → RawEntry V → C → C
  pub drop_key : Text → C → Bool × C
  pub drop_all : C → C

module _ {C V : Type 0} (lru : LruCache C V) where
  abbrev pub memory_reply : ℕ → Text → C → Option (RawEntry V) → Option (RawEntry V) × C
  memory_reply now key c none = (none, c)
  memory_reply now key c (some entry) =
      if is_expired entry now then (none, (lru.drop_key key c).1) else (some entry, c)

  unfoldable pub memory_get : ℕ → Text → C → Option (RawEntry V) × C
  memory_get now key c = memory_reply now key (lru.touch key c) (lru.hit key c)

  unfoldable pub memory_set : ℕ → Text → V → Option ℕ → C → C
  memory_set now key value ttl c =
      lru.put key (record { value = value; expires_at = expires_at_from_ttl ttl now }) c

  unfoldable pub memory_has : ℕ → Text → C → Bool × C
  unfolding memory_get
  memory_has now key c = (let r = memory_get now key c in (is_some r.0, r.1))

  abbrev pub memory_store : KvStore C V
  memory_store = record {
    get = memory_get;
    set = memory_set;
    delete = lru.drop_key;
    clear = lru.drop_all;
  }

-- The time left as a TTL: none without expiry, and at least 1.
unfoldable pub backfill_ttl : Remaining → Option ℕ
backfill_ttl forever = none
backfill_ttl (left n) = some (max 1 n)
backfill_ttl (overdue n) = some 1

-- `remainingTtl(hit, now) < threshold`
abbrev pub runs_short : Remaining → Option ℕ → Bool
runs_short remaining none = false
runs_short forever (some threshold) = false
runs_short (left n) (some threshold) = ltb n threshold
runs_short (overdue n) (some threshold) = true

-- How a call of `wrap` ends: with the value of the cache, and whether a refresh starts, or with what
-- the function returned.
pub data Wrapped (V : Type 0) : Type 0 where
  hit : V → Bool → Wrapped V
  computed : Option V → Wrapped V

-- `entry === undefined`, with what is done in either case.
abbrev pub on_entry : {V X : Type 0} → Option (RawEntry V) → X → (RawEntry V → X) → X
on_entry none missing found = missing
on_entry (some entry) missing found = found entry

module _ {S V : Type 0} (store : KvStore S V) where
  -- `above` are the stores before the one that has the entry.
  unfoldable pub backfill : ℕ → Text → RawEntry V → List S → List S
  backfill now key entry above =
      map (store.set now key entry.value (backfill_ttl (remaining_ttl entry now))) above

  -- The loop of `readRaw`. `above` are the stores that it has asked.
  unfoldable pub read_from : ℕ → Text → List S → List S → Option (RawEntry V) × List S
  read_from now key above [] = (none, above)
  read_from now key above (s ∷ below) =
      let r = store.get now key s in
      let rest = read_from now key (above ++ (r.1 ∷ [])) below in
      on_entry r.0 rest λ entry. (some entry, backfill now key entry above ++ (r.1 ∷ below))

  unfoldable pub read_raw : ℕ → Text → List S → Option (RawEntry V) × List S
  read_raw now key stores = read_from now key [] stores

  unfoldable pub cache_get : ℕ → Text → List S → Option V × List S
  cache_get now key stores =
      let r = read_raw now key stores in (on_entry r.0 none (λ entry. some entry.value), r.1)

  unfoldable pub cache_delete : Text → List S → Bool × List S
  cache_delete key [] = (false, [])
  cache_delete key (s ∷ stores) =
      let (gone, s') = store.delete key s in
      let (later, stores') = cache_delete key stores in (gone || later, s' ∷ stores')

  -- `default_ttl` is the option `defaultTtlMs`. No value, which is `undefined`, deletes.
  unfoldable pub cache_set : Option ℕ → ℕ → Text → Option V → Option ℕ → List S → List S
  cache_set default_ttl now key none ttl stores = (cache_delete key stores).1
  cache_set default_ttl now key (some value) ttl stores =
      map (store.set now key value (or_else ttl default_ttl)) stores

  unfoldable pub cache_clear : List S → List S
  cache_clear stores = map store.clear stores

  -- `wrap` for a key that no other call computes. `result` is what the function returns.
  unfoldable pub wrap :
      Option ℕ → ℕ → Text → Option V → Option ℕ → Option ℕ → List S → Wrapped V × List S
  wrap default_ttl now key result ttl threshold stores =
      let r = read_raw now key stores in
      on_entry r.0 (computed result, cache_set default_ttl now key result ttl r.1)
        λ entry. (hit entry.value (runs_short (remaining_ttl entry now) threshold), r.1)

-- What a test unfolds to run a cache.
unfoldable pub cache_runs : Unit {0}
unfolding memory_get memory_set memory_has backfill_ttl backfill read_from read_raw cache_get
    cache_delete cache_set cache_clear wrap expires_at_from_ttl passed is_expired remaining_of
    remaining_ttl
cache_runs = tt
