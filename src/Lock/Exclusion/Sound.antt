-- ===== src/Lock/Exclusion/Sound.antt =====
-- Every allowed call keeps the table in step with the handles whose leases run.
use kvdb_nodejs.Prelude.{
  ℕ, ◌+◌, ◌≤◌, ◌<◌, ◌≡◌, ◌≢◌, ◌⊎◌, inl, inr, refl, ◌∙◌, Bool, true, false, List, [], ◌∷◌, Option,
  none, some, Text, arith, text_keys, number_keys, ==_self, eqb, eqb_iff, find_row, upsert,
  find_row-upsert, Option-cases, Bool-cases, ltb,
}
use mathlib.Core.Path.{subst}
use kvdb_nodejs.Core.Expiry.{RawEntry, is_expired, expires_at_from_ttl}
use kvdb_nodejs.Core.Key.{KeyScope, to_physical_key}
use kvdb_nodejs.Core.Failure.{ok}
use kvdb_nodejs.Drivers.Sqlite.{Rows}
use kvdb_nodejs.Drivers.Sqlite.View.{view, live, view-later}
use kvdb_nodejs.Lock.{LockRecord, LockHandle, LockOptions, ttl_of, attempt, handle_of}
use kvdb_nodejs.Lock.Attempt.{
  IsFree, IsLost, attempt_held, attempt_free, release-stored, extend_own, extend_lost,
  extend_inactive, release_inactive,
}
use kvdb_nodejs.Lock.Exclusion.{
  World, Event, passes, attempts, extends, releases, step, extend_in, release_in, run, Holds,
  Allowed, AllAllowed, entry_of, IsSound,
}

bool_clash : {b : Bool} → b ≡ true → b ≡ false → ⊥
bool_clash p q = ground arith

own_or_IsLost :
    (token : ℕ) (o : Option (RawEntry LockRecord))
    → ((e : RawEntry LockRecord) × (o ≡ some e) × (e.value.token ≡ token)) ⊎ IsLost token o
own_or_IsLost token none = inr tt
own_or_IsLost token (some e) = elim (Bool-cases (eqb e.value.token token)) [
  | inl h ↦ inl (e, refl, (eqb_iff _ _).0 h)
  | inr h ↦ inr (ground (arith, eqb_iff e.value.token token))
]

IsFree-or_held :
    (now : ℕ) (o : Option (RawEntry LockRecord))
    → IsFree now o ⊎ ((e : RawEntry LockRecord) × (o ≡ some e) × (now < e.value.expires_at))
IsFree-or_held now none = inl tt
IsFree-or_held now (some e) = elim (Bool-cases (ltb now e.value.expires_at)) [
  | inl h ↦ inr (e, refl, ground arith)
  | inr h ↦ inl (ground arith)
]

module _ (scope : KeyScope) (key pk : Text) (at : to_physical_key scope key ≡ ok pk) where
  passes-IsSound :
      (w : World) (ms : ℕ) → IsSound key pk w → IsSound key pk (record w { now = w.now + ms })
  passes-IsSound w ms s = record {
    token_of = s.token_of;
    owner = λ t h f a lt.
        let (since, v) = s.owner t h f a (omega arith) in
        (
          since,
          view-later w.now (w.now + ms) pk w.rows (entry_of h since) v
              (unfold is_expired in ground arith),
        );
  }

  granted_owner :
      (w : World) (token : ℕ) (o : LockOptions)
      → IsFree w.now (view w.now pk w.rows)
      → w.now < w.now + ttl_of o
      → view w.now pk (attempt scope w.now key token (ttl_of o) w.rows).1
        ≡ some (entry_of (handle_of key token o w.now) w.now)
  unfolding handle_of
  granted_owner w token o free lt =
      (attempt_free scope key pk at w.now w.now token (ttl_of o) pk w.rows (omega arith) free).1
      ∙ rw (==_self pk) (unfold live is_expired expires_at_from_ttl in ground arith)

  -- No handle's lease runs while the lock is free.
  free_unheld :
      (w : World) (t : ℕ) (h : LockHandle)
      → IsSound key pk w
      → IsFree w.now (view w.now pk w.rows)
      → find_row t w.handles ≡ some h
      → h.active ≡ true
      → w.now < h.expires_at
      → ⊥
  free_unheld w t h s free f a lt =
      let past : h.expires_at ≤ w.now = rw (s.owner t h f a lt).1 at free in absurd (omega arith)

  -- One handle changes, and what the table holds for the others is still there.
  with_handle-IsSound :
      (w : World) (t : ℕ) (h' : LockHandle) (rows : Rows LockRecord)
      → IsSound key pk w
      → h'.token ≡ t
      → h'.key ≡ key
      → (h'.active ≡ true
          → w.now < h'.expires_at
          → (since : ℕ) × (view w.now pk rows ≡ some (entry_of h' since)))
      → ((u : ℕ) (h : LockHandle)
          → u ≢ t
          → find_row u w.handles ≡ some h
          → h.active ≡ true
          → w.now < h.expires_at
          → (since : ℕ) × (view w.now pk rows ≡ some (entry_of h since)))
      → IsSound key pk (record w { rows = rows; handles = upsert t h' w.handles })
  with_handle-IsSound w t h' rows s et ek new others = record {
    token_of =
        λ u h f. ground (arith, find_row-upsert t u h' w.handles, eqb_iff t u, s.token_of u h);
    owner = λ u h f a lt. elim (Bool-cases (eqb t u)) [
      | inl same ↦
          let e : h' ≡ h = ground (arith, find_row-upsert t u h' w.handles) in
          subst (λ g. (since : ℕ) × (view w.now pk rows ≡ some (entry_of g since))) e
            (new (rw e a) (rw e lt))
      | inr other ↦
          others u h (ground (arith, eqb_iff t u))
            (ground (arith, find_row-upsert t u h' w.handles)) a lt
    ];
  }

  attempts-IsSound :
      (w : World) (token : ℕ) (o : LockOptions)
      → IsSound key pk w
      → IsSound key pk (step scope key w (attempts token o))
  unfolding step
  attempts-IsSound w token o s = elim (IsFree-or_held w.now (view w.now pk w.rows)) [
    | inr (e, v, lt) ↦ rw (attempt_held scope key pk at w.now token (ttl_of o) w.rows e v lt) s
    | inl free ↦
        rw
          (attempt_free scope key pk at w.now w.now token (ttl_of o) pk w.rows (omega arith) free).0
          (with_handle-IsSound w token (handle_of key token o w.now) _ s (unfold handle_of in refl)
            (unfold handle_of in refl)
            (λ _ lt. (w.now, granted_owner w token o free (unfold handle_of in lt)))
            (λ u h ne f a lt. absurd (free_unheld w u h s free f a lt)))
  ]

  -- Whose record is stored, when another handle's lease runs.
  other_token :
      (w : World) (t u : ℕ) (h : LockHandle) (e : RawEntry LockRecord)
      → IsSound key pk w
      → u ≢ t
      → find_row u w.handles ≡ some h
      → h.active ≡ true
      → w.now < h.expires_at
      → view w.now pk w.rows ≡ some e
      → e.value.token ≢ t
  other_token w t u h e s ne f a lt v own =
      let (since, v') = s.owner u h f a lt in ne (ground (arith, s.token_of u h f))

  -- A change of one handle that leaves the rows alone and does not make its lease run.
  idle-IsSound :
      (w : World) (t : ℕ) (h h' : LockHandle)
      → IsSound key pk w
      → find_row t w.handles ≡ some h
      → h'.token ≡ h.token
      → h'.key ≡ h.key
      → h'.active ≡ false
      → IsSound key pk (record w { rows = w.rows; handles = upsert t h' w.handles })
  idle-IsSound w t h h' s f et ek dead =
      let (tt', kk) = s.token_of t h f in
      with_handle-IsSound w t h' w.rows s (et ∙ tt') (ek ∙ kk) (λ a _. absurd (bool_clash a dead))
        (λ u g _ fu a lt. s.owner u g fu a lt)

  extends_own-IsSound :
      (w : World) (token additional : ℕ) (h : LockHandle) (e : RawEntry LockRecord)
      → IsSound key pk w
      → find_row token w.handles ≡ some h
      → h.active ≡ true
      → view w.now pk w.rows ≡ some e
      → e.value.token ≡ h.token
      → IsSound key pk (extend_in scope key w token additional (some h))
  unfolding step
  extends_own-IsSound w token additional h e s f active v own =
      let (et, ek) = s.token_of token h f in
      let (_, moved, after) =
        extend_own scope h pk (rw ek at) active w.now w.now pk w.rows (omega arith) additional e v
          own in
      rw moved (
        with_handle-IsSound w token (record h { expires_at = w.now + additional }) _ s et ek
          (λ _ lt. (
            e.value.acquired_at,
            after ∙ rw (==_self pk) (unfold live is_expired expires_at_from_ttl in ground arith),
          ))
          (λ u g ne fu a lt. absurd (other_token w token u g e s ne fu a lt v (own ∙ et))))

  extends-IsSound :
      (w : World) (token additional : ℕ) (h : LockHandle)
      → IsSound key pk w
      → find_row token w.handles ≡ some h
      → IsSound key pk (extend_in scope key w token additional (some h))
  unfolding step
  extends-IsSound w token additional h s f = elim (Bool-cases h.active) [
    | inr dead ↦
        rw (extend_inactive scope h w.now additional w.rows dead)
          (idle-IsSound w token h h s f refl refl dead)
    | inl active ↦ elim (own_or_IsLost h.token (view w.now pk w.rows)) [
      | inl (e, v, own) ↦ extends_own-IsSound w token additional h e s f active v own
      | inr lost ↦
          rw
            (extend_lost scope h pk w.now additional w.rows (rw (s.token_of token h f).1 at) active
              lost)
            (idle-IsSound w token h (record h { active = false; heartbeat = none }) s f refl refl
              refl)
    ]
  ]

  releases-IsSound :
      (w : World) (token : ℕ) (h : LockHandle)
      → IsSound key pk w
      → find_row token w.handles ≡ some h
      → (h.active ≡ true → w.now < h.expires_at)
      → IsSound key pk (release_in scope key w token (some h))
  unfolding step
  releases-IsSound w token h s f prompt = elim (Bool-cases h.active) [
    | inr dead ↦
        rw (release_inactive scope h w.now w.rows dead)
          (idle-IsSound w token h h s f refl refl dead)
    | inl active ↦
        let (et, ek) = s.token_of token h f in
        let (since, v) = s.owner token h f active (prompt active) in
        let (_, ended, _) =
          release-stored scope h pk (rw ek at) active w.now w.now pk w.rows (omega arith)
            (entry_of h since) v in
        rw ended (
          with_handle-IsSound w token (record h { active = false; heartbeat = none }) _ s et ek
            (λ a _. absurd (bool_clash a refl))
            (λ u g ne fu a lt.
              absurd (other_token w token u g (entry_of h since) s ne fu a lt v et)))
  ]

  step-IsSound :
      (w : World) (e : Event) → Allowed w e → IsSound key pk w → IsSound key pk (step scope key w e)
  unfolding step
  step-IsSound w (passes ms) ok' s = passes-IsSound w ms s
  step-IsSound w (attempts token o) ok' s = attempts-IsSound w token o s
  step-IsSound w (extends token additional) ok' s = elim (Option-cases (find_row token w.handles)) [
    | inl e ↦ rw e s
    | inr (h, e) ↦ rw e (extends-IsSound w token additional h s e)
  ]
  step-IsSound w (releases token) ok' s = elim (Option-cases (find_row token w.handles)) [
    | inl e ↦ rw e s
    | inr (h, e) ↦ rw e (releases-IsSound w token h s e (ok' h e))
  ]

  run-IsSound :
      (w : World) (events : List Event)
      → AllAllowed scope key w events
      → IsSound key pk w
      → IsSound key pk (run scope key w events)
  unfolding run
  run-IsSound w [] ok' s = s
  run-IsSound w (e ∷ events) ok' s =
      run-IsSound (step scope key w e) events ok'.1 (step-IsSound w e ok'.0 s)

  -- Whatever the interleaving of attempts, extensions, releases and waits by any number of processes:
  -- if each token is fresh and a handle is released only while its lease runs, then two handles whose
  -- leases run at the same time are the same handle.
  pub mutual_exclusion :
      (w : World) (events : List Event) (t u : ℕ) (g h : LockHandle)
      → AllAllowed scope key w events
      → IsSound key pk w
      → find_row t (run scope key w events).handles ≡ some g
      → find_row u (run scope key w events).handles ≡ some h
      → Holds (run scope key w events) g
      → Holds (run scope key w events) h
      → t ≡ u
  mutual_exclusion w events t u g h ok' s fg fh holds_g holds_h =
      let s' = run-IsSound w events ok' s in
      let (a, vg) = s'.owner t g fg holds_g.0 holds_g.1 in
      let (b, vh) = s'.owner u h fh holds_h.0 holds_h.1 in
      ground (arith, s'.token_of t g fg, s'.token_of u h fh)
