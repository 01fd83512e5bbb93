-- ===== src/Cache/Wrap.antt =====
-- `wrap` of src/cache/cache.ts computes once.
use kvdb_nodejs.Prelude.{
  ℕ, suc, ◌+◌, ◌<◌, ◌≡◌, ◌⊎◌, text_keys, ◌==◌, ==_self, All, Bool-cases, refl, ap, ◌∙◌, inl, inr,
  false, List, [], ◌∷◌, ◌++◌, Option, none, some, Text, arith, length, length-append, or_else,
  Option-cases,
}
use kvdb_nodejs.Core.Expiry.{
  RawEntry, expires_at_from_ttl, passed, is_expired, remaining_of, remaining_ttl,
}
use kvdb_nodejs.Cache.{
  KvStore, Wrapped, hit, computed, runs_short, backfill, read_from, read_raw, cache_get, cache_set,
  wrap,
}
use kvdb_nodejs.Cache.Laws.{Kept, Kept-trans, live_at, entry_from, IsStore}
use kvdb_nodejs.Cache.Lossy.{
  Call, get_call, set_call, delete_call, clear_call, abstract_step, abstract_run, cache_run, Within,
  run-Lossy,
}

module _ {V : Type 0} where
  -- A call that does not set the key.
  abbrev pub Spares : Text → Call V → Type 0
  Spares k (get_call now j) = Unit
  Spares k (set_call now j v ttl) = (k == j) ≡ false
  Spares k (delete_call j) = Unit
  Spares k clear_call = Unit

  step-Spares :
      (default_ttl : Option ℕ) (k : Text) (e : Option (RawEntry V)) (c : Call V)
      (m : Text → Option (RawEntry V))
      → Spares k c
      → Kept e (m k)
      → Kept e (abstract_step default_ttl c m k)
  step-Spares default_ttl k e (get_call now j) m s h = h
  step-Spares default_ttl k e (set_call now j none ttl) m s h = rw s h
  step-Spares default_ttl k e (set_call now j (some v) ttl) m s h = rw s h
  step-Spares default_ttl k e (delete_call j) m s h = elim (Bool-cases (k == j)) [
    | inl y ↦ rw y (inl refl)
    | inr n ↦ rw n h
  ]
  step-Spares default_ttl k e clear_call m s h = inl refl

  run-Spares :
      (default_ttl : Option ℕ) (k : Text) (e : Option (RawEntry V)) (cs : List (Call V))
      (m : Text → Option (RawEntry V))
      → All (Spares k) cs
      → Kept e (m k)
      → Kept e (abstract_run default_ttl cs m k)
  run-Spares default_ttl k e [] m s h = h
  run-Spares default_ttl k e (c ∷ cs) m s h =
      run-Spares default_ttl k e cs (abstract_step default_ttl c m) s.1
        (step-Spares default_ttl k e c m s.0 h)

module _ {S V : Type 0} (store : KvStore S V) (peek : Text → S → Option (RawEntry V))
    (laws : IsStore store peek) where
  length-backfill :
      (now : ℕ) (k : Text) (e : RawEntry V) (above : List S)
      → length (backfill store now k e above) ≡ length above
  unfolding backfill
  length-backfill now k e [] = refl
  length-backfill now k e (s ∷ above) = ap suc (length-backfill now k e above)

  length-read_from :
      (now : ℕ) (k : Text) (above below : List S)
      → length (read_from store now k above below).1 ≡ length above + length below
  unfolding read_from
  length-read_from now k above [] = omega arith
  length-read_from now k above (s ∷ below) = elim (Option-cases (store.get now k s).0) [
    | inl e ↦
        rw (read_from, e)
          (length-read_from now k (above ++ ((store.get now k s).1 ∷ [])) below
            ∙ omega (arith, length-append above ((store.get now k s).1 ∷ [])))
    | inr (entry, e) ↦
        rw (read_from, e)
          (length-append (backfill store now k entry above) ((store.get now k s).1 ∷ below)
            ∙ omega (arith, length-backfill now k entry above))
  ]

  length-read_raw :
      (now : ℕ) (k : Text) (stores : List S)
      → length (read_raw store now k stores).1 ≡ length stores
  unfolding read_raw
  length-read_raw now k stores = length-read_from now k [] stores ∙ omega arith

  live_some : (now : ℕ) (e : RawEntry V) → is_expired e now ≡ false → live_at now (some e) ≡ some e
  live_some now e h = rw h refl

  -- A read of a key that was just set.
  read-set :
      (default_ttl : Option ℕ) (now later : ℕ) (k : Text) (v : V) (ttl : Option ℕ) (stores : List S)
      → 0 < length stores
      → passed (expires_at_from_ttl (or_else ttl default_ttl) now) later ≡ false
      → (read_raw store later k (cache_set store default_ttl now k (some v) ttl stores)).0
        ≡ some (entry_from now v (or_else ttl default_ttl))
  unfolding read_raw cache_set read_from is_expired
  read-set default_ttl now later k v ttl [] h live = absurd (omega arith)
  read-set default_ttl now later k v ttl (s ∷ stores) h live =
      let e = entry_from now v (or_else ttl default_ttl) in
      let there = store.set now k v (or_else ttl default_ttl) s in
      rw
        (laws.get_live later k there
          ∙ (ap (live_at later) (laws.set_own now k v (or_else ttl default_ttl) s)
              ∙ live_some later e live))
        refl

  live-Kept :
      (now : ℕ) (e : RawEntry V) (o : Option (RawEntry V))
      → is_expired e now ≡ false
      → Kept (some e) o
      → Kept (some e) (live_at now o)
  live-Kept now e o live (inl lost) = inl (ap (live_at now) lost)
  live-Kept now e o live (inr there) = inr (ap (live_at now) there ∙ live_some now e live)

  -- What a read finds that comes later than a set of the key, with other calls between.
  read-later :
      (default_ttl : Option ℕ) (now later : ℕ) (k : Text) (v : V) (ttl : Option ℕ)
      (cs : List (Call V)) (m : Text → Option (RawEntry V)) (stores : List S)
      → All (Within store peek laws m) stores
      → passed (expires_at_from_ttl (or_else ttl default_ttl) now) later ≡ false
      → All (Spares k) cs
      → Kept
          (some (entry_from now v (or_else ttl default_ttl)))
          (read_raw store later k (
            cache_run default_ttl store cs
              (cache_set store default_ttl now k (some v) ttl (read_raw store now k stores).1))).0
  unfolding cache_get is_expired
  read-later default_ttl now later k v ttl cs m stores within live spared =
      let e = entry_from now v (or_else ttl default_ttl) in
      let m' = abstract_step default_ttl (set_call now k (some v) ttl) m in
      Kept-trans (some e) (live_at later (abstract_run default_ttl cs m' k)) _
        (live-Kept later e (abstract_run default_ttl cs m' k) live
          (run-Spares default_ttl k (some e) cs m' spared (rw (==_self k) (inr refl))))
        (run-Lossy store peek laws default_ttl (get_call now k ∷ set_call now k (some v) ttl ∷ cs) m
          stores later k within)

  -- Where a call of `wrap` finds nothing and its function returns a value, a call of `wrap` for the key
  -- that follows at once, before the entry expires, returns that value and not what its own function
  -- would return, and starts a refresh where the time left is below its threshold. After calls in
  -- between that do not set the key, a later call does the same, or computes anew where the entry was
  -- lost or deleted. The stores may lose entries, and start within one map.
  pub wrap_memoizes :
      (default_ttl : Option ℕ) (now later : ℕ) (k : Text) (v : V) (other : Option V)
      (ttl ttl' threshold threshold' : Option ℕ) (m : Text → Option (RawEntry V)) (stores : List S)
      (cs : List (Call V))
      → All (Within store peek laws m) stores
      → 0 < length stores
      → (read_raw store now k stores).0 ≡ none
      → passed (expires_at_from_ttl (or_else ttl default_ttl) now) later ≡ false
      → All (Spares k) cs
      → (let left = (wrap store default_ttl now k (some v) ttl threshold stores).1 in
          let answer : Wrapped V = hit v (
            runs_short
              (remaining_of (expires_at_from_ttl (or_else ttl default_ttl) now) later)
              threshold') in
          ((wrap store default_ttl later k other ttl' threshold' left).0 ≡ answer)
          × (((wrap store default_ttl later k other ttl' threshold'
                  (cache_run default_ttl store cs left)).0
                ≡ answer)
              ⊎ ((wrap store default_ttl later k other ttl' threshold'
                    (cache_run default_ttl store cs left)).0
                  ≡ computed other)))
  unfolding wrap remaining_ttl
  wrap_memoizes default_ttl now later k v other ttl ttl' threshold threshold' m stores cs within h
        missed live spared =
      let asked = (read_raw store now k stores).1 in
      let full : 0 < length asked = omega (arith, h, length-read_raw now k stores) in
      rw missed (
        rw (read-set default_ttl now later k v ttl asked full live) refl,
        elim (read-later default_ttl now later k v ttl cs m stores within live spared) [
          | inl lost ↦ inr (rw lost refl)
          | inr there ↦ inl (rw there refl)
        ],
      )
