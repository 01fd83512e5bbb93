-- ===== src/Idempotency/Contended.antt =====
-- A claim over the redis driver, whose `update` may call the mutator more than once.
use kvdb_nodejs.Prelude.{
  ℕ, ◌≡◌, refl, Bool, true, false, ◌||◌, List, [], ◌∷◌, Option, none, some, Text, Equality, ==_self,
}
use kvdb_nodejs.Core.Expiry.{RawEntry}
use kvdb_nodejs.Drivers.Redis.{
  Server, Meeting, written, entry_of, store, cas_update, attempts, redis_update, full_key,
}
use kvdb_nodejs.Table.{mutate_with, value_of}
use kvdb_nodejs.Idempotency.{IdempotencyRecord, claim, is_claimable}

-- `isClaimer` after these calls of the mutator: once it is set, no later call takes it back.
unfoldable pub is_claimer :
    {R : Type 0} → ℕ → ℕ → List (Option (RawEntry (IdempotencyRecord R))) → Bool
is_claimer timeout now [] = false
is_claimer timeout now (current ∷ calls) =
    is_claimable timeout now (value_of current) || is_claimer timeout now calls

free_claimable : (R : Type 0) (timeout now : ℕ) → is_claimable {R = R} timeout now none ≡ true
unfolding is_claimable
free_claimable R timeout now = refl

module _ {R S : Type 0} ⦃records : Equality (IdempotencyRecord R)⦄
    (server : Server S (IdempotencyRecord R)) where
  -- Where the first read finds no record, another caller's claim comes in before the script runs, and
  -- the second attempt meets no further change, the update leaves the record of the other caller, and
  -- the caller takes itself for the one to run the function all the same.
  pub contended_claim_runs :
      (prefix key : Text) (timeout now ttl : ℕ) (s : S) (first second : Meeting S)
      (other : IdempotencyRecord R)
      → server.get_value (full_key prefix key) s ≡ none
      → server.get_value (full_key prefix key) first.state ≡ some other
      → server.get_value (full_key prefix key) second.state ≡ some other
      → is_claimable timeout now (some other) ≡ false
      → let met =
          entry_of server second.now (some other) (server.pttl (full_key prefix key) first.state) in
        (redis_update server prefix key
            (mutate_with now
              (claim timeout now)
              (record { upsert = true; default = none; ttl_ms = some ttl }))
            s
            (first ∷ second ∷ [])
          ≡ written
              (none ∷ met ∷ [])
              (store server (full_key prefix key) other (some ttl) second.state))
        × (is_claimer timeout now (none ∷ met ∷ []) ≡ true)
  unfolding redis_update attempts cas_update mutate_with claim is_claimer
  contended_claim_runs prefix key timeout now ttl s first second other h h1 h2 held =
      (rw (h, h1, h2, held, ==_self other) refl, rw (free_claimable R timeout now) refl)
