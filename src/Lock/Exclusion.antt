-- ===== src/Lock/Exclusion.antt =====
-- Mutual exclusion: processes that share one lock key, any interleaving of their calls.
pub mod Sound
use kvdb_nodejs.Prelude.{
  ℕ, ◌+◌, ◌≤◌, ◌<◌, ◌≡◌, ◌≢◌, ◌⊎◌, inl, inr, refl, sym, ap, ◌∙◌, Bool, true, false, List, [], ◌∷◌,
  Option, none, some, Text, arith, text_keys, number_keys, ◌==◌, ==_iff, ==_self, eqb, find_row,
  upsert, find_row-upsert, if◌then◌else◌, Option-cases, Bool-cases,
}
use kvdb_nodejs.Core.Expiry.{RawEntry, is_expired, expires_at_from_ttl, passed}
use kvdb_nodejs.Core.Key.{KeyScope, to_physical_key}
use kvdb_nodejs.Core.Failure.{ok}
use kvdb_nodejs.Drivers.Sqlite.{Rows}
use kvdb_nodejs.Drivers.Sqlite.View.{view, live}
use kvdb_nodejs.Lock.{
  LockRecord, LockHandle, LockOptions, ttl_of, attempt, handle_of, release, extend,
}
use kvdb_nodejs.Lock.Attempt.{
  stored, IsFree, IsLost, attempt_held, attempt_free, release-stored, release_missing, extend_own,
  extend_lost,
}

pub record World : Type 0 where
  pub now : ℕ
  pub rows : Rows LockRecord
  -- The handles given out, by token.
  pub handles : List (ℕ × LockHandle)

pub data Event : Type 0 where
  passes : ℕ → Event
  attempts : ℕ → LockOptions → Event
  extends : ℕ → ℕ → Event
  releases : ℕ → Event

module _ (scope : KeyScope) (key : Text) where
  extend_in : World → ℕ → ℕ → Option LockHandle → World
  extend_in w token additional none = w
  extend_in w token additional (some h) =
      let (success, h', rows) = extend scope w.now additional h w.rows in
      record w { rows = rows; handles = upsert token h' w.handles }

  release_in : World → ℕ → Option LockHandle → World
  release_in w token none = w
  release_in w token (some h) =
      let (done, h', rows) = release scope w.now h w.rows in
      record w { rows = rows; handles = upsert token h' w.handles }

  unfoldable pub step : World → Event → World
  unfolding extend_in release_in
  step w (passes ms) = record w { now = w.now + ms }
  step w (attempts token o) =
      let (acquired, rows) = attempt scope w.now key token (ttl_of o) w.rows in
      record w {
        rows = rows;
        handles =
            if acquired then upsert token (handle_of key token o w.now) w.handles else w.handles;
      }
  step w (extends token additional) = extend_in w token additional (find_row token w.handles)
  step w (releases token) = release_in w token (find_row token w.handles)

  unfoldable pub run : World → List Event → World
  unfolding step
  run w [] = w
  run w (e ∷ events) = run (step w e) events

-- A handle whose lease runs: its owner may believe that it holds the lock.
abbrev pub Holds : World → LockHandle → Type 0
Holds w h = (h.active ≡ true) × (w.now < h.expires_at)

-- Tokens are fresh, and a handle is released while its lease runs.
abbrev pub Allowed : World → Event → Type 0
Allowed w (attempts token o) = find_row token w.handles ≡ none
Allowed w (releases token) =
    (h : LockHandle) → find_row token w.handles ≡ some h → h.active ≡ true → w.now < h.expires_at
Allowed w _ = Unit

abbrev pub AllAllowed : KeyScope → Text → World → List Event → Type 0
AllAllowed scope key w [] = Unit
AllAllowed scope key w (e ∷ events) = Allowed w e × AllAllowed scope key (step scope key w e) events

-- The entry that the table holds for a handle whose lease runs.
abbrev pub entry_of : LockHandle → ℕ → RawEntry LockRecord
entry_of h since = record {
  value = record { token = h.token; acquired_at = since; expires_at = h.expires_at };
  expires_at = some h.expires_at;
}

module _ (key pk : Text) where
  pub record IsSound (w : World) : Type 0 where
    pub token_of :
        (t : ℕ) (h : LockHandle) → find_row t w.handles ≡ some h → (h.token ≡ t) × (h.key ≡ key)
    pub owner :
        (t : ℕ) (h : LockHandle)
        → find_row t w.handles ≡ some h
        → h.active ≡ true
        → w.now < h.expires_at
        → (since : ℕ) × (view w.now pk w.rows ≡ some (entry_of h since))
