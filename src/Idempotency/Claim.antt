-- ===== src/Idempotency/Claim.antt =====
-- Who runs the function, and what later callers get.
use kvdb_nodejs.Prelude.{
  ℕ, ◌+◌, ◌≤◌, ◌<◌, ◌≡◌, refl, sym, ap, ◌∙◌, Bool, true, false, List, [], ◌∷◌, Option, none, some,
  Text, text_keys, ==_self, arith,
}
use kvdb_nodejs.Core.Failure.{Failure, ok, err}
use kvdb_nodejs.Core.Key.{KeyScope, to_physical_key}
use kvdb_nodejs.Core.Expiry.{RawEntry, is_expired, expires_at_from_ttl}
use kvdb_nodejs.Drivers.Sqlite.{Rows, entry}
use kvdb_nodejs.Drivers.Sqlite.View.{view, live}
use kvdb_nodejs.Table.{mutate_with, value_of}
use kvdb_nodejs.Table.View.{view-table_update, get-eq}
use kvdb_nodejs.Idempotency.{
  IdempotencyRecord, IdempotentOptions, ttl_of, timeout_of, returned, failed, pending_at,
  is_claimable, claim, try_claim, resolved_with, rejected_with, settle, reject, read_record,
  resolved_result, Round, begin_round, idempotent, answered,
}

lt_of_le : (a b c : ℕ) → a ≤ b → b < c → a < c
lt_of_le a b c h k = omega (arith, h, k)

le_self : (a : ℕ) → a ≤ a
le_self a = omega arith

within_longer : (a b w t : ℕ) → a ≤ b + w → w ≤ t → a ≤ b + t
within_longer a b w t h k = omega (arith, h, k)

outlives : (a b w t : ℕ) → a ≤ b → w < t → a + w < b + t
outlives a b w t h k = omega (arith, h, k)

after_start_of : (a b c : ℕ) → a ≤ b → b ≤ c → a ≤ c
after_start_of a b c h k = omega (arith, h, k)

-- A caller's claim.
pub record Attempt : Type 0 where
  pub now : ℕ
  pub options : IdempotentOptions

unfoldable pub no_claims : List Attempt → List Bool
no_claims [] = []
no_claims (a ∷ attempts) = false ∷ no_claims attempts

module _ {R : Type 0} where
  -- Which of the claims, one after the other, get the right to run the function.
  unfoldable pub claims_in : KeyScope → Text → List Attempt → Rows (IdempotencyRecord R) → List Bool
  claims_in scope key [] rows = []
  claims_in scope key (a ∷ attempts) rows =
      let (claimer, existing, rows') = try_claim scope key a.options a.now rows in
      claimer ∷ claims_in scope key attempts rows'

-- Claims in order, none later than `window` after `since`, by callers whose timeout is not shorter and
-- whose records live longer than that.
abbrev pub IsWithin : ℕ → ℕ → ℕ → List Attempt → Type 0
IsWithin since window from [] = Unit
IsWithin since window from (a ∷ attempts) =
    (from ≤ a.now)
    × (a.now ≤ since + window)
    × (window ≤ timeout_of a.options)
    × (window < ttl_of a.options)
    × IsWithin since window a.now attempts

-- A pending record within the timeout is not to be claimed.
pending_held :
    (R : Type 0) (timeout now since : ℕ)
    → now ≤ since + timeout
    → is_claimable {R = R} timeout now (some (pending_at since)) ≡ false
unfolding is_claimable
pending_held R timeout now since h = ground (arith, h)

rejected_open :
    (R : Type 0) (timeout later since ttl : ℕ) (message : Text)
    → is_claimable {R = R} timeout later
        (value_of (live later (some (entry since (rejected_with message since) (some ttl)))))
      ≡ true
unfolding is_claimable live is_expired
rejected_open R timeout later since ttl message = ground arith

module _ {R : Type 0} (scope : KeyScope) (key pk : Text)
    (at : to_physical_key scope key ≡ ok pk) where
  -- A reader sees this record from `from` to `until`.
  abbrev Shows : ℕ → ℕ → IdempotencyRecord R → Rows (IdempotencyRecord R) → Type 0
  Shows from until r rows =
      (t : ℕ)
      → from ≤ t
      → t ≤ until
      → (e : RawEntry (IdempotencyRecord R)) × (view t pk rows ≡ some e) × (e.value ≡ r)

  -- The update of a claim, on what it finds.
  claim_update :
      (o : IdempotentOptions) (now : ℕ) (found : Option (RawEntry (IdempotencyRecord R)))
      (written : IdempotencyRecord R)
      → claim (timeout_of o) now (value_of found) ≡ ok written
      → mutate_with now
          (claim (timeout_of o) now)
          (record { upsert = true; default = none; ttl_ms = some (ttl_of o) })
          found
        ≡ ok (record { value = written; ttl_ms = some (ttl_of o) })
  unfolding mutate_with
  claim_update o now none written h = rw h refl
  claim_update o now (some e) written h = rw h refl

  fresh_entry :
      (now later ttl : ℕ) (r : IdempotencyRecord R)
      → later < now + ttl
      → live later (some (entry now r (some ttl))) ≡ some (entry now r (some ttl))
  unfolding live is_expired expires_at_from_ttl
  fresh_entry now later ttl r h = ground (arith, h)

  -- A written record shows until its time is over.
  try_claim-Shows :
      (o : IdempotentOptions) (now until : ℕ) (rows : Rows (IdempotencyRecord R))
      (written : IdempotencyRecord R)
      → claim (timeout_of o) now (value_of (view now pk rows)) ≡ ok written
      → until < now + ttl_of o
      → Shows now until written (try_claim scope key o now rows).2
  unfolding try_claim
  try_claim-Shows o now until rows written h lt t le le' =
      let u =
        view-table_update scope key pk at now t pk (claim (timeout_of o) now)
          (record { upsert = true; default = none; ttl_ms = some (ttl_of o) }) rows
          (record { value = written; ttl_ms = some (ttl_of o) }) le
          (claim_update o now (view now pk rows) written h) in
      (
        entry now written (some (ttl_of o)),
        rw (u.1, ==_self pk) (fresh_entry now t (ttl_of o) written (lt_of_le _ _ _ le' lt)),
        refl,
      )

  try_claim-flag :
      (o : IdempotentOptions) (now : ℕ) (rows : Rows (IdempotencyRecord R))
      → (try_claim scope key o now rows).0
        ≡ is_claimable (timeout_of o) now (value_of (view now pk rows))
  unfolding try_claim
  try_claim-flag o now rows = rw (get-eq scope key pk at now rows) refl

  claim_yes :
      (timeout now : ℕ) (curr : Option (IdempotencyRecord R))
      → is_claimable timeout now curr ≡ true
      → claim timeout now curr ≡ ok (pending_at now)
  unfolding claim
  claim_yes timeout now none h = refl
  claim_yes timeout now (some curr) h = rw h refl

  claim_no :
      (timeout now : ℕ) (curr : IdempotencyRecord R)
      → is_claimable timeout now (some curr) ≡ false
      → claim timeout now (some curr) ≡ ok curr
  unfolding claim
  claim_no timeout now curr h = rw h refl

  held_claims :
      (since window from : ℕ) (attempts : List Attempt) (rows : Rows (IdempotencyRecord R))
      → since ≤ from
      → Shows from (since + window) (pending_at since) rows
      → IsWithin since window from attempts
      → claims_in scope key attempts rows ≡ no_claims attempts
  unfolding claims_in no_claims
  held_claims since window from [] rows le shows within = refl
  held_claims since window from (a ∷ attempts) rows le shows (after, before, waits, lives, rest) =
      let (e, seen, same) = shows a.now after before in
      let begun = after_start_of _ _ _ le after in
      let found : value_of (view a.now pk rows) ≡ some (pending_at since) =
        rw seen (ap some same) in
      let held =
        pending_held R (timeout_of a.options) a.now since (within_longer _ _ _ _ before waits) in
      let flag : (try_claim scope key a.options a.now rows).0 ≡ false =
        try_claim-flag a.options a.now rows
        ∙ ap (is_claimable (timeout_of a.options) a.now) found
        ∙ held in
      let kept : claim (timeout_of a.options) a.now (value_of (view a.now pk rows))
          ≡ ok (pending_at since) =
        ap (claim (timeout_of a.options) a.now) found
        ∙ claim_no (timeout_of a.options) a.now (pending_at since) held in
      rw
        (
          flag,
          held_claims since window a.now attempts (try_claim scope key a.options a.now rows).2 begun
              (try_claim-Shows a.options a.now (since + window) rows (pending_at since) kept
                (outlives _ _ _ _ begun lives))
              rest,
        )
        refl

  -- After a caller has got the right to run the function, no claim within `window` gets it, as long as
  -- no outcome is written, if the record of the call and those of the later callers live longer than
  -- `window` and their timeouts are not shorter.
  pub claim_exclusive :
      (o : IdempotentOptions) (since window : ℕ) (attempts : List Attempt)
      (rows : Rows (IdempotencyRecord R))
      → (try_claim scope key o since rows).0 ≡ true
      → window < ttl_of o
      → IsWithin since window since attempts
      → claims_in scope key attempts (try_claim scope key o since rows).2 ≡ no_claims attempts
  claim_exclusive o since window attempts rows flag lt within =
      held_claims since window since attempts (try_claim scope key o since rows).2 (le_self since)
        (try_claim-Shows o since (since + window) rows (pending_at since)
          (claim_yes (timeout_of o) since (value_of (view since pk rows))
            (sym (try_claim-flag o since rows) ∙ flag))
          (outlives _ _ _ _ (le_self since) lt))
        within

  -- The update of the claimer, on a record that is there.
  settle_update :
      (now ttl : ℕ) (r : IdempotencyRecord R) (e : RawEntry (IdempotencyRecord R))
      → mutate_with now
          (λ curr. ok r)
          (record { upsert = false; default = none; ttl_ms = some ttl })
          (some e)
        ≡ ok (record { value = r; ttl_ms = some ttl })
  unfolding mutate_with
  settle_update now ttl r e = refl

  settle-returned :
      (o : IdempotentOptions) (result : R) (message_of : Failure → Text) (now later : ℕ)
      (rows : Rows (IdempotencyRecord R)) (e : RawEntry (IdempotencyRecord R))
      → view now pk rows ≡ some e
      → now ≤ later
      → later < now + ttl_of o
      → ((settle scope key o (returned result) message_of now rows).0 ≡ ok result)
        × (view later pk (settle scope key o (returned result) message_of now rows).1
            ≡ some (entry now (resolved_with result now) (some (ttl_of o))))
  unfolding settle
  settle-returned o result message_of now later rows e v le lt =
      let u =
        view-table_update scope key pk at now later pk (λ curr. ok (resolved_with result now))
          (record { upsert = false; default = none; ttl_ms = some (ttl_of o) }) rows
          (record { value = resolved_with result now; ttl_ms = some (ttl_of o) }) le
          (rw v (settle_update now (ttl_of o) (resolved_with result now) e)) in
      (
        rw u.0 refl,
        rw u.0 (
            u.1 ∙ rw (==_self pk) (fresh_entry now later (ttl_of o) (resolved_with result now) lt)),
      )

  -- A record that shows the result answers at once.
  begin_round-answered :
      (o : IdempotentOptions) (result : R) (since : ℕ) (ttl : Option ℕ) (r : Round R)
      → view r.read_at pk r.read_rows ≡ some (entry since (resolved_with result since) ttl)
      → begin_round scope key o r ≡ answered result
  unfolding begin_round read_record resolved_result
  begin_round-answered o result since ttl r v =
      rw (get-eq scope key pk at r.read_at r.read_rows, v) refl

  -- Where the record of the call is there, and `fn` returned, the call returns the result, and until
  -- the record expires a call for the key that finds those rows returns the same result at its
  -- first read, without a run of its own.
  pub replays_result :
      (o o' : IdempotentOptions) (result : R) (message_of : Failure → Text) (now start : ℕ)
      (rows : Rows (IdempotencyRecord R)) (e : RawEntry (IdempotencyRecord R)) (r : Round R)
      (rounds : List (Round R))
      → view now pk rows ≡ some e
      → r.read_rows ≡ (settle scope key o (returned result) message_of now rows).1
      → now ≤ r.read_at
      → r.read_at < now + ttl_of o
      → ((settle scope key o (returned result) message_of now rows).0 ≡ ok result)
        × (idempotent scope key o' start (r ∷ rounds) ≡ answered result)
  unfolding idempotent
  replays_result o o' result message_of now start rows e r rounds v same le lt =
      let s = settle-returned o result message_of now r.read_at rows e v le lt in
      let found = ap (view r.read_at pk) same ∙ s.1 in
      (s.0, rw (begin_round-answered o' result now (some (ttl_of o)) r found) refl)

  -- Where the record of the call is there, and `fn` threw, the call throws the same error, and a claim
  -- at any later time gets the right to run.
  pub failure_frees :
      (o o' : IdempotentOptions) (f : Failure) (message : Text) (message_of : Failure → Text)
      (now later : ℕ) (rows : Rows (IdempotencyRecord R)) (e : RawEntry (IdempotencyRecord R))
      → view now pk rows ≡ some e
      → now ≤ later
      → ((settle scope key o (failed f message) message_of now rows).0 ≡ err f)
        × ((try_claim scope key o' later
              (settle scope key o (failed f message) message_of now rows).1).0
            ≡ true)
  unfolding settle reject
  failure_frees o o' f message message_of now later rows e v le =
      let u =
        view-table_update scope key pk at now later pk (λ curr. ok (rejected_with message now))
          (record { upsert = false; default = none; ttl_ms = some 10000 }) rows
          (record { value = rejected_with message now; ttl_ms = some 10000 }) le
          (rw v (settle_update now 10000 (rejected_with message now) e)) in
      (
        refl,
        try_claim-flag o' later (settle scope key o (failed f message) message_of now rows).1
            ∙ rw (u.1, ==_self pk) (rejected_open R (timeout_of o') later now 10000 message),
      )
