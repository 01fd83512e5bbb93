-- ===== src/Drivers/Redis/Atomic.antt =====
-- `update` of the redis driver takes effect at one moment.
use kvdb_nodejs.Prelude.{
  length, ◌≤◌, arith, ℕ, zero, suc, ◌≡◌, ◌⊎◌, inl, inr, refl, ap, true, List, [], ◌∷◌, Option, none,
  some, Text, Equality, ==_iff, Bool-cases,
}
use mathlib.Core.Path.{subst}
use kvdb_nodejs.Core.Failure.{Result, ok, err, thrown, kvdb_connection_error, Result-cases}
use kvdb_nodejs.Core.Expiry.{RawEntry}
use kvdb_nodejs.Drivers.Sqlite.{UpdateResult}
use kvdb_nodejs.Drivers.Redis.{
  Server, Meeting, UpdateEnd, written, thrown_by, trying, entry_of, store, same_value, cas_update,
  called, attempts, redis_update, full_key, max_update_attempts,
}

abbrev pub Among : {A : Type 0} → A → List A → Type 0
Among x [] = ⊥
Among x (y ∷ ys) = (x ≡ y) ⊎ Among x ys

module _ {S V : Type 0} (server : Server S V) where
  -- At one of the meetings, the mutator was applied to the value that the server had at that moment,
  -- and what it returned was stored there.
  abbrev pub WrittenAt :
      Text → (Option (RawEntry V) → Result (UpdateResult V)) → List (Meeting S) → S → Type 0
  WrittenAt p mutate meetings s =
      (m : Meeting S) × (ttl : Option ℕ) × (r : UpdateResult V) × Among m meetings
      × (mutate (entry_of server m.now (server.get_value p m.state) ttl) ≡ ok r)
      × (s ≡ store server p r.value r.ttl_ms m.state)

  -- A write at one of the meetings, an error of the mutator, or the error after the last attempt.
  abbrev pub Ends :
      Text
      → (Option (RawEntry V) → Result (UpdateResult V))
      → List (Meeting S)
      → UpdateEnd S V
      → Type 0
  Ends p mutate meetings (written calls s) = WrittenAt p mutate meetings s
  Ends p mutate meetings (thrown_by calls e) =
      ((current : Option (RawEntry V)) × (mutate current ≡ err e))
      ⊎ (e ≡ thrown kvdb_connection_error)
  Ends p mutate meetings trying = ⊥

  Ends-called :
      (p : Text) (mutate : Option (RawEntry V) → Result (UpdateResult V))
      (meetings : List (Meeting S)) (c : Option (RawEntry V)) (end : UpdateEnd S V)
      → Ends p mutate meetings end
      → Ends p mutate meetings (called server c end)
  Ends-called p mutate meetings c (written calls s) h = h
  Ends-called p mutate meetings c (thrown_by calls e) h = h
  Ends-called p mutate meetings c trying h = h

  Ends-later :
      (p : Text) (mutate : Option (RawEntry V) → Result (UpdateResult V)) (m : Meeting S)
      (meetings : List (Meeting S)) (end : UpdateEnd S V)
      → Ends p mutate meetings end
      → Ends p mutate (m ∷ meetings) end
  Ends-later p mutate m meetings (written calls s) (m', ttl, r, among, f, g) =
      (m', ttl, r, inr among, f, g)
  Ends-later p mutate m meetings (thrown_by calls e) h = h
  Ends-later p mutate m meetings trying h = h

  module _ ⦃values : Equality V⦄ where
    same_value-eq : (a b : Option V) → same_value server a b ≡ true → a ≡ b
    same_value-eq none none h = refl
    same_value-eq (some v) (some w) h = ap some ((==_iff v w).0 h)
    same_value-eq none (some w) h = cc
    same_value-eq (some v) none h = cc

    attempts-Ends :
        (left : ℕ) (p : Text) (mutate : Option (RawEntry V) → Result (UpdateResult V))
        (expected : Option V) (ttl : Option ℕ) (meetings : List (Meeting S))
        → left ≤ length meetings
        → Ends p mutate meetings (attempts server left p mutate expected ttl meetings)
    unfolding attempts cas_update
    attempts-Ends zero p mutate expected ttl meetings enough = inr refl
    attempts-Ends (suc left) p mutate expected ttl [] enough = absurd (omega arith)
    attempts-Ends (suc left) p mutate expected ttl (m ∷ meetings) enough =
        let current = entry_of server m.now expected ttl in
        Ends-called p mutate (m ∷ meetings) current _ (elim (Result-cases (mutate current)) [
          | inr (f, e) ↦ rw e (inl (current, e))
          | inl (r, e) ↦
              elim (Bool-cases (same_value server expected (server.get_value p m.state))) [
                | inl y ↦
                    rw (e, y)
                      (
                        m,
                        ttl,
                        r,
                        inl refl,
                        subst (λ x. mutate (entry_of server m.now x ttl) ≡ ok r)
                            (same_value-eq expected (server.get_value p m.state) y) e,
                        refl,
                      )
                | inr n ↦
                    rw (e, n)
                      (Ends-later p mutate m meetings _ (
                        attempts-Ends left p mutate (server.get_value p m.state)
                          (server.pttl p m.state) meetings (omega (arith, enough))))
              ]
        ])

    -- Given as many meetings as it has attempts, an update ends: with a write that took effect at one
    -- moment (at one of its attempts, the mutator was applied to the value that the server had then,
    -- and what it returned, with its time to live, was stored in the state that the server was in),
    -- with an error that the mutator threw, or with a connection error.
    pub update-Ends :
        (prefix key : Text) (mutate : Option (RawEntry V) → Result (UpdateResult V)) (s : S)
        (meetings : List (Meeting S))
        → max_update_attempts ≤ length meetings
        → Ends
            (full_key prefix key)
            mutate
            meetings
            (redis_update server prefix key mutate s meetings)
    unfolding redis_update
    update-Ends prefix key mutate s meetings enough =
        attempts-Ends max_update_attempts (full_key prefix key) mutate _ _ meetings enough
