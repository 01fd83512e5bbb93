-- ===== src/Idempotency/Tests.antt =====
-- Idempotent calls on concrete rows.
use kvdb_nodejs.Prelude.{
  zero, suc, and_split, and_both, ◌&&◌, ◌↔◌, eqb, eqb_iff, text_beq, text_beq_iff, Equality,
  find_row, upsert, remove, ℕ, ◌≡◌, refl, Bool, true, false, List, [], ◌∷◌, none, some, Text, codes,
  arith, text_keys,
}
use mathlib.Core.Path.{subst}
use kvdb_nodejs.Core.Failure.{Failure, ok, err, plain_error}
use kvdb_nodejs.Core.Key.{KeyScope, to_physical_key}
use kvdb_nodejs.Drivers.Sqlite.{Rows}
use kvdb_nodejs.Drivers.Sqlite.View.{view}
use kvdb_nodejs.Table.{table_runs, mutate_with}
use kvdb_nodejs.Idempotency.{
  IdempotencyStatus, pending, resolved, rejected, pending_at, IdempotencyRecord, IdempotentOptions,
  returned, failed, try_claim, settle, idempotent, answered, timed_out, Round, claim, is_claimable,
  read_record, resolved_result, is_open,
}
use kvdb_nodejs.Drivers.Redis.{
  Server, Meeting, attempts, cas_update, redis_update, written, full_key, store,
}
use kvdb_nodejs.Drivers.Redis.Atomic.{Ends, update-Ends}
use kvdb_nodejs.Idempotency.Contended.{is_claimer, contended_claim_runs}
use kvdb_nodejs.Idempotency.Claim.{
  Attempt, claims_in, no_claims, claim_exclusive, replays_result, failure_frees,
}

abbrev calls : KeyScope
calls = record { table_prefix = []; namespace = codes "calls" }

abbrev pay : Text
pay = codes "pay"

pay_at : to_physical_key calls pay ≡ ok (codes "calls:pay")
unfolding table_runs
pay_at = refl

abbrev quick : IdempotentOptions
quick = record { ttl_ms = some 100; timeout_ms = some 20; retry_interval_ms = some 5 }

abbrev claimed_rows : Rows (IdempotencyRecord ℕ)
claimed_rows = (try_claim calls pay quick 10 []).2

abbrev attempt_at : ℕ → Attempt
attempt_at now = record { now = now; options = quick }

claim_exclusive_example :
    claims_in calls pay (attempt_at 15 ∷ attempt_at 30 ∷ []) claimed_rows ≡ false ∷ false ∷ []
unfolding table_runs try_claim is_claimable no_claims
claim_exclusive_example =
    claim_exclusive calls pay (codes "calls:pay") pay_at quick 10 20
      (attempt_at 15 ∷ attempt_at 30 ∷ []) [] refl (omega arith)
      (
        omega arith,
        omega arith,
        omega arith,
        omega arith,
        (omega arith, omega arith, omega arith, omega arith, tt),
      )

-- One millisecond later the call counts as abandoned.
taken_over : (try_claim calls pay quick 31 claimed_rows).0 ≡ true
unfolding table_runs try_claim is_claimable claim
taken_over = refl

message_of : Failure → Text
message_of e = codes "update"

abbrev settled_rows : Rows (IdempotencyRecord ℕ)
settled_rows = (settle calls pay quick (returned 7) message_of 12 claimed_rows).1

abbrev later_round : Round ℕ
later_round = record {
  read_at = 40;
  read_rows = settled_rows;
  claim_at = 40;
  claim_rows = settled_rows;
  polls = [];
  ended_at = 40;
}

replays_result_example :
    ((settle calls pay quick (returned 7) message_of 12 claimed_rows).0 ≡ ok 7)
    × (idempotent calls pay quick 40 (later_round ∷ []) ≡ answered 7)
unfolding table_runs try_claim claim view
replays_result_example =
    replays_result calls pay (codes "calls:pay") pay_at quick quick 7 message_of 12 40 claimed_rows
      _ later_round [] refl refl (omega arith) (omega arith)

failure_frees_example :
    ((settle calls pay quick (failed (plain_error "no") (codes "no")) message_of 12 claimed_rows).0
      ≡ err (plain_error "no"))
    × ((try_claim calls pay quick 13
          (settle calls pay quick
            (failed (plain_error "no") (codes "no"))
            message_of
            12
            claimed_rows).1).0
        ≡ true)
unfolding table_runs try_claim claim view
failure_frees_example =
    failure_frees calls pay (codes "calls:pay") pay_at quick quick (plain_error "no") (codes "no")
      message_of 12 13 claimed_rows _ refl (omega arith)

-- A caller that finds the call pending looks at the record until its timeout.
abbrev pending_round : Round ℕ
pending_round = record {
  read_at = 12;
  read_rows = claimed_rows;
  claim_at = 12;
  claim_rows = claimed_rows;
  polls =
      record { checked_at = 12; read_at = 17; rows = claimed_rows }
      ∷ record { checked_at = 32; read_at = 32; rows = claimed_rows }
      ∷ [];
  ended_at = 32;
}

times_out : idempotent calls pay quick 12 (pending_round ∷ []) ≡ timed_out
unfolding table_runs try_claim claim is_claimable idempotent read_record resolved_result is_open
times_out = refl

-- Records are compared by their status and time.
abbrev status_beq : IdempotencyStatus ℕ → IdempotencyStatus ℕ → Bool
status_beq pending pending = true
status_beq (resolved m) (resolved n) = eqb m n
status_beq (rejected s) (rejected t) = text_beq s t
status_beq _ _ = false

status_beq_iff : (s t : IdempotencyStatus ℕ) → (status_beq s t ≡ true) ↔ (s ≡ t)
status_beq_iff pending pending = (λ _. refl, λ _. refl)
status_beq_iff (resolved m) (resolved n) = ground (arith, eqb_iff m n)
status_beq_iff (rejected s) (rejected t) = ground (arith, text_beq_iff s t)
status_beq_iff pending (resolved n) = ground arith
status_beq_iff pending (rejected t) = ground arith
status_beq_iff (resolved m) pending = ground arith
status_beq_iff (resolved m) (rejected t) = ground arith
status_beq_iff (rejected s) pending = ground arith
status_beq_iff (rejected s) (resolved n) = ground arith

abbrev record_beq : IdempotencyRecord ℕ → IdempotencyRecord ℕ → Bool
record_beq r s = status_beq r.status s.status && eqb r.created_at s.created_at

same_record :
    (r s : IdempotencyRecord ℕ) → r.status ≡ s.status → r.created_at ≡ s.created_at → r ≡ s
same_record r s h k = cc

record_beq_iff : (r s : IdempotencyRecord ℕ) → (record_beq r s ≡ true) ↔ (r ≡ s)
record_beq_iff r s = (
  λ h.
      same_record r s ((status_beq_iff r.status s.status).0 (and_split _ _ h).0)
        ((eqb_iff r.created_at s.created_at).0 (and_split _ _ h).1),
  λ h.
      subst (λ t. record_beq r t ≡ true) h
        (and_both ((status_beq_iff r.status r.status).1 refl)
          ((eqb_iff r.created_at r.created_at).1 refl)),
)

instance abbrev record_keys : Equality (IdempotencyRecord ℕ)
record_keys = record { same = record_beq; same_iff = record_beq_iff }

-- A server that keeps values for good.
abbrev plain_server : Server (List (Text × IdempotencyRecord ℕ)) (IdempotencyRecord ℕ)
plain_server = record {
  get_value = λ k s. find_row k s;
  pttl = λ k s. none;
  set_value = λ k v s. upsert k v s;
  set_px = λ k v ttl s. upsert k v s;
  del = λ k s. (0, remove k s);
  exists = λ k s. 0;
}

abbrev taken : List (Text × IdempotencyRecord ℕ)
taken = (codes "pay", pending_at 10) ∷ []

abbrev meeting : Meeting (List (Text × IdempotencyRecord ℕ))
meeting = record { now = 10; state = taken }

contended_claim_runs_example :
    (redis_update plain_server [] pay
        (mutate_with 10 (claim 20 10) (record { upsert = true; default = none; ttl_ms = some 100 }))
        []
        (meeting ∷ meeting ∷ [])
      ≡ written (none ∷ some (record { value = pending_at 10; expires_at = none }) ∷ []) taken)
    × (is_claimer {R = ℕ} 20 10
          (none ∷ some (record { value = pending_at 10; expires_at = none }) ∷ [])
        ≡ true)
unfolding table_runs is_claimable full_key store
contended_claim_runs_example =
    contended_claim_runs plain_server [] pay 20 10 100 [] meeting meeting (pending_at 10) refl refl
      refl refl

-- Fifty attempts that find the record of another caller.
abbrev repeat : ℕ → List (Meeting (List (Text × IdempotencyRecord ℕ)))
repeat zero = []
repeat (suc n) = meeting ∷ repeat n

update-Ends_example :
    Ends plain_server pay
      (mutate_with 10 (claim 20 10) (record { upsert = true; default = none; ttl_ms = some 100 }))
      (repeat 50)
      (written (none ∷ some (record { value = pending_at 10; expires_at = none }) ∷ []) taken)
unfolding table_runs is_claimable full_key store redis_update attempts cas_update claim
update-Ends_example =
    update-Ends plain_server [] pay
      (mutate_with 10 (claim 20 10) (record { upsert = true; default = none; ttl_ms = some 100 }))
      [] (repeat 50) (omega arith)
