-- ===== src/Drivers/Redis.antt =====
-- src/drivers/redis/redis-driver.ts over the commands of a server, without connections, scans and
-- queries: get, set, delete, has, setMany, the script of `update` and its loop of attempts.
pub mod Atomic
use kvdb_nodejs.Prelude.{
  ℕ, zero, suc, ◌+◌, ◌≡◌, Bool, true, false, List, [], ◌∷◌, ◌++◌, Option, none, some, Text,
  Equality, ◌==◌, if◌then◌else◌, ltb,
}
use kvdb_nodejs.Core.Failure.{Failure, Result, ok, err, thrown, kvdb_connection_error}
use kvdb_nodejs.Core.Expiry.{RawEntry}
use kvdb_nodejs.Drivers.Sqlite.{UpdateResult}

-- The server's commands on its state `S` for values `V`: GET, PTTL (none where it is negative), SET,
-- SET with PX, DEL and EXISTS with their counts.
pub record Server (S V : Type 0) : Type 0 where
  pub get_value : Text → S → Option V
  pub pttl : Text → S → Option ℕ
  pub set_value : Text → V → S → S
  pub set_px : Text → V → ℕ → S → S
  pub del : Text → S → ℕ × S
  pub exists : Text → S → ℕ

unfoldable pub full_key : Text → Text → Text
full_key prefix key = prefix ++ key

-- The reply of the script.
pub data Reply (S V : Type 0) : Type 0 where
  applied : S → Reply S V
  refused : Option V → Option ℕ → Reply S V

-- What one attempt of `update` meets: the clock, and the server when the script runs.
pub record Meeting (S : Type 0) : Type 0 where
  pub now : ℕ
  pub state : S

-- How `update` ends. The list holds what the mutator was called with; `trying` is the loop that still
-- runs when the given meetings are over.
pub data UpdateEnd (S V : Type 0) : Type 0 where
  written : List (Option (RawEntry V)) → S → UpdateEnd S V
  thrown_by : List (Option (RawEntry V)) → Failure → UpdateEnd S V
  trying : UpdateEnd S V

abbrev pub max_update_attempts : ℕ
max_update_attempts = 50

module _ {S V : Type 0} (server : Server S V) where
  -- An expiry is added to a value only where a positive time is left.
  abbrev pub expiry_after : ℕ → Option ℕ → Option ℕ
  expiry_after now none = none
  expiry_after now (some zero) = none
  expiry_after now (some (suc n)) = some (now + suc n)

  abbrev pub entry_of : ℕ → Option V → Option ℕ → Option (RawEntry V)
  entry_of now none ttl = none
  entry_of now (some v) ttl = some (record { value = v; expires_at = expiry_after now ttl })

  unfoldable pub redis_get : Text → ℕ → Text → S → Option (RawEntry V)
  redis_get prefix now key s =
      let p = full_key prefix key in entry_of now (server.get_value p s) (server.pttl p s)

  -- A time to live of zero deletes the key, in `set` and in the script.
  unfoldable pub store : Text → V → Option ℕ → S → S
  store p v none s = server.set_value p v s
  store p v (some zero) s = (server.del p s).1
  store p v (some (suc n)) s = server.set_px p v (suc n) s

  unfoldable pub redis_set : Text → Text → V → Option ℕ → S → S
  redis_set prefix key v ttl s = store (full_key prefix key) v ttl s

  unfoldable pub redis_delete : Text → Text → S → Bool × S
  redis_delete prefix key s =
      let (deleted, s') = server.del (full_key prefix key) s in (ltb 0 deleted, s')

  unfoldable pub redis_has : Text → Text → S → Bool
  redis_has prefix key s = ltb 0 (server.exists (full_key prefix key) s)

  unfoldable pub redis_set_many : Text → List (Text × V × Option ℕ) → S → S
  redis_set_many prefix [] s = s
  redis_set_many prefix ((key, v, ttl) ∷ entries) s =
      redis_set_many prefix entries (redis_set prefix key v ttl s)

  -- One call of the mutator more, in front.
  abbrev pub called : Option (RawEntry V) → UpdateEnd S V → UpdateEnd S V
  called current (written calls s) = written (current ∷ calls) s
  called current (thrown_by calls e) = thrown_by (current ∷ calls) e
  called current trying = trying

  module _ ⦃values : Equality V⦄ where
    abbrev pub same_value : Option V → Option V → Bool
    same_value none none = true
    same_value (some v) (some w) = v == w
    same_value _ _ = false

    -- CAS_UPDATE_LUA
    unfoldable pub cas_update : Text → Option V → V → Option ℕ → S → Reply S V
    cas_update p expected v ttl s =
        if same_value expected (server.get_value p s)
        then applied (store p v ttl s)
        else refused (server.get_value p s) (server.pttl p s)

    abbrev pub after_reply : Reply S V → (Option V → Option ℕ → UpdateEnd S V) → UpdateEnd S V
    after_reply (applied s) retry = written [] s
    after_reply (refused actual ttl) retry = retry actual ttl

    abbrev pub after_mutate :
        Result (UpdateResult V) → (UpdateResult V → UpdateEnd S V) → UpdateEnd S V
    after_mutate (err e) next = thrown_by [] e
    after_mutate (ok r) next = next r

    -- The loop, with the value and the time that the last look at the server showed.
    unfoldable pub attempts :
        ℕ
        → Text
        → (Option (RawEntry V) → Result (UpdateResult V))
        → Option V
        → Option ℕ
        → List (Meeting S)
        → UpdateEnd S V
    attempts zero p mutate expected ttl meetings = thrown_by [] (thrown kvdb_connection_error)
    attempts (suc left) p mutate expected ttl [] = trying
    attempts (suc left) p mutate expected ttl (m ∷ meetings) =
        let current = entry_of m.now expected ttl in
        called current (
          after_mutate (mutate current) λ r.
            after_reply (cas_update p expected r.value r.ttl_ms m.state)
              λ actual left_ms. attempts left p mutate actual left_ms meetings)

    -- `update`, with the first read at a state of its own.
    unfoldable pub redis_update :
        Text
        → Text
        → (Option (RawEntry V) → Result (UpdateResult V))
        → S
        → List (Meeting S)
        → UpdateEnd S V
    redis_update prefix key mutate s meetings =
        let p = full_key prefix key in
        attempts max_update_attempts p mutate (server.get_value p s) (server.pttl p s) meetings
