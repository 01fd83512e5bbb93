-- ===== src/Core/Failure.antt =====
-- src/core/errors.ts, and what a function that may throw returns.
use Prim.Native.String.{String}
use kvdb_nodejs.Prelude.{if◌then◌else◌, ◌≡◌, refl, Bool, ◌⊎◌, inl, inr}

pub data KvdbErrorCode : Type 0 where
  connection query serialization unsupported config : KvdbErrorCode

pub data KvdbErrorClass : Type 0 where
  kvdb_connection_error kvdb_query_error kvdb_serialization_error : KvdbErrorClass
  kvdb_unsupported_error kvdb_config_error kvdb_schema_error : KvdbErrorClass
  kvdb_migration_error kvdb_queue_error kvdb_lock_error : KvdbErrorClass
  kvdb_rate_limit_error kvdb_idempotency_error : KvdbErrorClass

-- The code that each class hands to its base class.
unfoldable pub code_of : KvdbErrorClass → KvdbErrorCode
code_of kvdb_connection_error = connection
code_of kvdb_query_error = query
code_of kvdb_serialization_error = serialization
code_of kvdb_unsupported_error = unsupported
code_of kvdb_config_error = config
code_of kvdb_schema_error = config
code_of kvdb_migration_error = config
code_of kvdb_queue_error = query
code_of kvdb_lock_error = query
code_of kvdb_rate_limit_error = query
code_of kvdb_idempotency_error = query

-- What is thrown: an error of this library, a bare KvdbError, or a plain Error with its message.
pub data Failure : Type 0 where
  thrown : KvdbErrorClass → Failure
  kvdb_error : KvdbErrorCode → Failure
  plain_error : String → Failure

pub data Result {ℓ} (R : Type ℓ) : Type ℓ where
  err : Failure → Result R
  ok : R → Result R

-- A throw ends the chain of calls.
infixl 10 ◌>>=◌ ◌>>◌
abbrev pub ◌>>=◌ {ℓ κ} : {R : Type ℓ} {S : Type κ} → Result R → (R → Result S) → Result S
◌>>=◌ (err thrown') next = err thrown'
◌>>=◌ (ok result) next = next result

abbrev pub ◌>>◌ {κ} : {S : Type κ} → Result (Unit {0}) → Result S → Result S
first >> next = first >>= λ _. next

-- `if (bad) throw e`
abbrev pub throw_if : Bool → Failure → Result (Unit {0})
throw_if bad e = if bad then err e else ok tt

pub Result-cases {ℓ} :
    {A : Type ℓ} (r : Result A) → ((a : A) × (r ≡ ok a)) ⊎ ((e : Failure) × (r ≡ err e))
Result-cases (ok a) = inl (a, refl)
Result-cases (err e) = inr (e, refl)
