-- ===== src/Cache/Lossy.antt =====
-- A cache as a map that loses entries: what it answers is what the last write left, or nothing.
use kvdb_nodejs.Prelude.{
  ℕ, ◌≡◌, refl, sym, ap, ◌∙◌, inl, inr, false, List, [], ◌∷◌, ◌++◌, map, Option, none, some, Text,
  text_keys, ◌==◌, ==_iff, if◌then◌else◌, or_else, arith, All, Bool-cases, Option-cases,
  some_injective,
}
use kvdb_nodejs.Core.Expiry.{
  RawEntry, expires_at_from_ttl, passed, is_expired, remaining_of, remaining_ttl,
}
use kvdb_nodejs.Cache.{
  KvStore, backfill_ttl, backfill, read_from, read_raw, cache_get, cache_delete, cache_set,
  cache_clear,
}
use kvdb_nodejs.Cache.Laws.{Kept, Kept-trans, live_at, entry_from, IsStore}

-- The calls of a cache, each with its time.
pub data Call (V : Type 0) : Type 0 where
  get_call : ℕ → Text → Call V
  set_call : ℕ → Text → Option V → Option ℕ → Call V
  delete_call : Text → Call V
  clear_call : Call V

-- The abstract cache: the entries that the calls left.
abbrev pub write :
    {V : Type 0}
    → Text
    → Option (RawEntry V)
    → (Text → Option (RawEntry V))
    → Text
    → Option (RawEntry V)
write k e m j = if j == k then e else m j

module _ {V : Type 0} (default_ttl : Option ℕ) where
  abbrev pub abstract_step : Call V → (Text → Option (RawEntry V)) → Text → Option (RawEntry V)
  abstract_step (get_call now k) m = m
  abstract_step (set_call now k none ttl) m = write k none m
  abstract_step (set_call now k (some v) ttl) m =
      write k (some (entry_from now v (or_else ttl default_ttl))) m
  abstract_step (delete_call k) m = write k none m
  abstract_step clear_call m = λ j. none

  abbrev pub abstract_run :
      List (Call V) → (Text → Option (RawEntry V)) → Text → Option (RawEntry V)
  abstract_run [] m = m
  abstract_run (c ∷ cs) m = abstract_run cs (abstract_step c m)

  module _ {S : Type 0} (store : KvStore S V) where
    abbrev pub cache_step : Call V → List S → List S
    cache_step (get_call now k) stores = (cache_get store now k stores).1
    cache_step (set_call now k v ttl) stores = cache_set store default_ttl now k v ttl stores
    cache_step (delete_call k) stores = (cache_delete store k stores).1
    cache_step clear_call stores = cache_clear store stores

    abbrev pub cache_run : List (Call V) → List S → List S
    cache_run [] stores = stores
    cache_run (c ∷ cs) stores = cache_run cs (cache_step c stores)

backfill_expiry :
    (e : Option ℕ) (now : ℕ)
    → passed e now ≡ false
    → expires_at_from_ttl (backfill_ttl (remaining_of e now)) now ≡ e
unfolding expires_at_from_ttl backfill_ttl remaining_of passed
backfill_expiry none now h = refl
backfill_expiry (some t) now h = ground arith

live_hit :
    {V : Type 0} (now : ℕ) (p : Option (RawEntry V)) (entry : RawEntry V)
    → live_at now p ≡ some entry
    → (p ≡ some entry) × (is_expired entry now ≡ false)
live_hit now none entry h = cc
live_hit now (some e) entry h = elim (Bool-cases (is_expired e now)) [
  | inl y ↦ cc
  | inr n ↦
      let same = some_injective (rw n at h) in
      (ap some same, ap (λ x. is_expired x now) (sym same) ∙ n)
]

-- A live entry that is written again with the time it has left is the same entry.
pub entry_from-backfill_ttl :
    {V : Type 0} (now : ℕ) (entry : RawEntry V)
    → is_expired entry now ≡ false
    → entry_from now entry.value (backfill_ttl (remaining_ttl entry now)) ≡ entry
unfolding remaining_ttl is_expired
entry_from-backfill_ttl now entry h =
    ap (λ e. record { value = entry.value; expires_at = e })
      (backfill_expiry entry.expires_at now h)

module _ {S V : Type 0} (store : KvStore S V) (peek : Text → S → Option (RawEntry V))
    (laws : IsStore store peek) where
  -- A store has entries of the map only.
  abbrev pub Within : (Text → Option (RawEntry V)) → S → Type 0
  Within m s = (j : Text) → Kept (m j) (peek j s)

  get-Within :
      (m : Text → Option (RawEntry V)) (now : ℕ) (k : Text) (s : S)
      → Within m s
      → Within m (store.get now k s).1
  get-Within m now k s h j = Kept-trans (m j) (peek j s) _ (h j) (laws.get_keeps now k j s)

  -- Of an operation that leaves `e` under its key and may lose others.
  put-Within :
      (m : Text → Option (RawEntry V)) (k : Text) (e : Option (RawEntry V)) (s s' : S)
      → peek k s' ≡ e
      → ((j : Text) → (j == k) ≡ false → Kept (peek j s) (peek j s'))
      → Within m s
      → Within (write k e m) s'
  put-Within m k e s s' own other h j = elim (Bool-cases (j == k)) [
    | inl y ↦ rw y (inr (ap (λ i. peek i s') ((==_iff j k).0 y) ∙ own))
    | inr n ↦ rw n (Kept-trans (m j) (peek j s) (peek j s') (h j) (other j n))
  ]

  get-hit :
      (m : Text → Option (RawEntry V)) (now : ℕ) (k : Text) (s : S) (entry : RawEntry V)
      → Within m s
      → (store.get now k s).0 ≡ some entry
      → (m k ≡ some entry) × (is_expired entry now ≡ false)
  get-hit m now k s entry h e =
      let (there, live) = live_hit now (peek k s) entry (sym (laws.get_live now k s) ∙ e) in
      elim (h k) [ inl lost ↦ cc | inr same ↦ (sym same ∙ there, live) ]

  set-Within :
      (m : Text → Option (RawEntry V)) (now : ℕ) (k : Text) (v : V) (ttl : Option ℕ) (s : S)
      → Within m s
      → Within (write k (some (entry_from now v ttl)) m) (store.set now k v ttl s)
  set-Within m now k v ttl s =
      put-Within m k (some (entry_from now v ttl)) s (store.set now k v ttl s)
        (laws.set_own now k v ttl s) λ j n. laws.set_other now k j v ttl s n

  -- Writing an entry that the map has already changes nothing.
  write_same :
      (m : Text → Option (RawEntry V)) (k : Text) (e : Option (RawEntry V)) (s : S)
      → m k ≡ e
      → Within (write k e m) s
      → Within m s
  write_same m k e s same h j = elim (Bool-cases (j == k)) [
    | inl y ↦ elim (rw y at (h j)) [
      | inl lost ↦ inl lost
      | inr there ↦ inr (there ∙ (sym same ∙ ap m (sym ((==_iff j k).0 y))))
    ]
    | inr n ↦ rw n at (h j)
  ]

  backfill-Within :
      (m : Text → Option (RawEntry V)) (now : ℕ) (k : Text) (entry : RawEntry V) (above : List S)
      → m k ≡ some entry
      → is_expired entry now ≡ false
      → All (Within m) above
      → All (Within m) (backfill store now k entry above)
  unfolding backfill
  backfill-Within m now k entry [] e live h = tt
  backfill-Within m now k entry (s ∷ above) e live h =
      let ttl = backfill_ttl (remaining_ttl entry now) in
      (
        write_same m k (some (entry_from now entry.value ttl)) (store.set now k entry.value ttl s)
            (e ∙ ap some (sym (entry_from-backfill_ttl now entry live)))
            (set-Within m now k entry.value ttl s h.0),
        backfill-Within m now k entry above e live h.1,
      )

  All-append :
      (m : Text → Option (RawEntry V)) (xs ys : List S)
      → All (Within m) xs
      → All (Within m) ys
      → All (Within m) (xs ++ ys)
  All-append m [] ys h k = k
  All-append m (x ∷ xs) ys h k = (h.0, All-append m xs ys h.1 k)

  -- What a read answers.
  abbrev pub Answers :
      (Text → Option (RawEntry V)) → ℕ → Text → Option (RawEntry V) × List S → Type 0
  Answers m now k r = Kept (live_at now (m k)) r.0 × All (Within m) r.1

  Answers-hit :
      (m : Text → Option (RawEntry V)) (now : ℕ) (k : Text) (entry : RawEntry V)
      → (m k ≡ some entry) × (is_expired entry now ≡ false)
      → some entry ≡ live_at now (m k)
  Answers-hit m now k entry (e, live) = rw (e, live) refl

  read_from-Answers :
      (m : Text → Option (RawEntry V)) (now : ℕ) (k : Text) (above below : List S)
      → All (Within m) above
      → All (Within m) below
      → Answers m now k (read_from store now k above below)
  unfolding read_from
  read_from-Answers m now k above [] h g = (inl refl, h)
  read_from-Answers m now k above (s ∷ below) h g =
      let kept = get-Within m now k s g.0 in
      elim (Option-cases (store.get now k s).0) [
        | inl e ↦
            rw (read_from, e)
              (read_from-Answers m now k (above ++ ((store.get now k s).1 ∷ [])) below
                (All-append m above _ h (kept, tt)) g.1)
        | inr (entry, e) ↦
            let found = get-hit m now k s entry g.0 e in
            rw (read_from, e)
              (
                inr (Answers-hit m now k entry found),
                All-append m _ _ (backfill-Within m now k entry above found.0 found.1 h)
                    (kept, g.1),
              )
      ]

  delete-Within :
      (m : Text → Option (RawEntry V)) (k : Text) (stores : List S)
      → All (Within m) stores
      → All (Within (write k none m)) (cache_delete store k stores).1
  unfolding cache_delete
  delete-Within m k [] h = tt
  delete-Within m k (s ∷ stores) h = (
    put-Within m k none s (store.delete k s).1 (laws.delete_own k s) (λ j. laws.delete_other k j s)
        h.0,
    delete-Within m k stores h.1,
  )

  All-mapped :
      (P Q : S → Type 0) (f : S → S) (stores : List S)
      → ((s : S) → P s → Q (f s))
      → All P stores
      → All Q (map f stores)
  All-mapped P Q f [] step h = tt
  All-mapped P Q f (s ∷ stores) step h = (step s h.0, All-mapped P Q f stores step h.1)

  step-Within :
      (default_ttl : Option ℕ) (c : Call V) (m : Text → Option (RawEntry V)) (stores : List S)
      → All (Within m) stores
      → All (Within (abstract_step default_ttl c m)) (cache_step default_ttl store c stores)
  unfolding cache_get cache_set cache_clear read_raw
  step-Within default_ttl (get_call now k) m stores h = (read_from-Answers m now k [] stores tt h).1
  step-Within default_ttl (set_call now k none ttl) m stores h = delete-Within m k stores h
  step-Within default_ttl (set_call now k (some v) ttl) m stores h =
      All-mapped (Within m) _ _ stores (set-Within m now k v (or_else ttl default_ttl)) h
  step-Within default_ttl (delete_call k) m stores h = delete-Within m k stores h
  step-Within default_ttl clear_call m stores h =
      All-mapped (Within m) _ _ stores (λ s g j. inl (laws.clear_all j s)) h

  run-Within :
      (default_ttl : Option ℕ) (cs : List (Call V)) (m : Text → Option (RawEntry V))
      (stores : List S)
      → All (Within m) stores
      → All (Within (abstract_run default_ttl cs m)) (cache_run default_ttl store cs stores)
  run-Within default_ttl [] m stores h = h
  run-Within default_ttl (c ∷ cs) m stores h =
      run-Within default_ttl cs (abstract_step default_ttl c m)
        (cache_step default_ttl store c stores) (step-Within default_ttl c m stores h)

  -- after any calls, whatever the stores have lost, a read gives the entry that the last write of the
  -- key left if that is still live, or nothing; over stores that may lose entries but promise no other
  -- ones, from stores within a map.
  pub run-Lossy :
      (default_ttl : Option ℕ) (cs : List (Call V)) (m : Text → Option (RawEntry V))
      (stores : List S) (now : ℕ) (k : Text)
      → All (Within m) stores
      → Kept
          (live_at now (abstract_run default_ttl cs m k))
          (read_raw store now k (cache_run default_ttl store cs stores)).0
  unfolding read_raw
  run-Lossy default_ttl cs m stores now k h =
      (read_from-Answers (abstract_run default_ttl cs m) now k []
        (cache_run default_ttl store cs stores) tt (run-Within default_ttl cs m stores h)).0
