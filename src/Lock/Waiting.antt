-- ===== src/Lock/Waiting.antt =====
-- src/lock/lock.ts: the waiting loop of `acquireLock`, and a release by a process that lost its lease.
use kvdb_nodejs.Prelude.{
  ℕ, zero, suc, ◌+◌, ◌-◌, ◌*◌, ◌≤◌, ◌<◌, ◌≡◌, ◌≢◌, inl, inr, true, List, [], ◌∷◌, some, Text, arith,
  text_keys, ==_self, eqb_iff, leb, length, Bool-cases,
}
use kvdb_nodejs.Core.Expiry.{RawEntry, is_expired, expires_at_from_ttl}
use kvdb_nodejs.Core.Key.{KeyScope, to_physical_key}
use kvdb_nodejs.Core.Failure.{ok}
use kvdb_nodejs.Drivers.Sqlite.{Rows}
use kvdb_nodejs.Drivers.Sqlite.View.{view, live}
use kvdb_nodejs.Lock.{
  LockRecord, LockHandle, LockOptions, Round, waiting, wait_of, retry_of, attempt, release,
  next_sleep, acquire_lock,
}
use kvdb_nodejs.Lock.Attempt.{attempt_free, release-stored}

-- Each round begins no earlier than the sleep before it ends.
abbrev pub IsPaced : LockOptions → ℕ → ℕ → List Round → Type 0
IsPaced o start from [] = Unit
IsPaced o start from (r ∷ rounds) =
    (from ≤ r.later) × IsPaced o start (r.later + next_sleep o (r.later - start)) rounds

-- The sleeps add up: one more round failed leaves the loop one retry interval further, or at its end.
sleeps_add_up :
    (o : LockOptions) (from elapsed n : ℕ)
    → from ≤ elapsed
    → elapsed < wait_of o
    → wait_of o + retry_of o ≤ from + suc n * retry_of o
    → wait_of o + retry_of o ≤ (elapsed + next_sleep o elapsed) + n * retry_of o
unfolding next_sleep
sleeps_add_up o from elapsed zero h lt le = absurd (omega arith)
sleeps_add_up o from elapsed (suc n) h lt le = grind arith

next_sleep-le : (o : LockOptions) (elapsed : ℕ) → next_sleep o elapsed ≤ wait_of o - elapsed
unfolding next_sleep
next_sleep-le o elapsed = omega arith

waits_at_most :
    (scope : KeyScope) (key : Text) (token start slept from : ℕ) (o : LockOptions)
    (rounds : List Round)
    → 0 < retry_of o
    → start ≤ from
    → from - start ≤ wait_of o
    → wait_of o + retry_of o ≤ (from - start) + length rounds * retry_of o
    → IsPaced o start from rounds
    → (s : ℕ) → acquire_lock scope key token o start slept rounds ≢ waiting s
unfolding acquire_lock
waits_at_most scope key token start slept from o [] pos le most enough paced s =
    absurd (omega arith)
waits_at_most scope key token start slept from o (r ∷ rounds) pos le most enough paced s =
    elim (Bool-cases (leb (wait_of o) (r.later - start))) [
      | inl out ↦ ground (arith, out)
      | inr more ↦
          let elapsed = r.later - start in
          let next = r.later + next_sleep o elapsed in
          let slept_most = next_sleep-le o elapsed in
          let ih =
            waits_at_most scope key token start (next_sleep o elapsed) next o rounds pos
              (omega arith) (ground (arith, next_sleep-le o elapsed))
              (omega (
                arith,
                sleeps_add_up o (from - start) elapsed (length rounds) (omega arith)
                    (ground (arith, more)) enough,
              ))
              paced.1 s in
          ground (arith, more, ih)
    ]

-- The loop that waits for a held lock is over, granted or timed out, by the time that its rounds
-- cover the wait timeout and one more retry interval, if each round begins after the sleep before it
-- and the retry interval is not zero.
pub acquire_lock_ends :
    (scope : KeyScope) (key : Text) (token start : ℕ) (o : LockOptions) (rounds : List Round)
    → 0 < retry_of o
    → wait_of o + retry_of o ≤ length rounds * retry_of o
    → IsPaced o start start rounds
    → (s : ℕ) → acquire_lock scope key token o start 0 rounds ≢ waiting s
acquire_lock_ends scope key token start o rounds pos enough paced =
    waits_at_most scope key token start 0 start o rounds pos (omega arith) (omega arith)
      (omega arith) paced

module _ (scope : KeyScope) (h : LockHandle) (pk : Text)
    (at : to_physical_key scope h.key ≡ ok pk) where
  -- A release by a handle whose lease was lost to another process: although the other process's lease
  -- runs, its record is gone one millisecond later, and a third process is let in.
  pub stale_release_evicts :
      (now later token ttl : ℕ) (rows : Rows LockRecord) (e : RawEntry LockRecord)
      → h.active ≡ true
      → view now pk rows ≡ some e
      → e.value.token ≢ h.token
      → now < later
      → later < e.value.expires_at
      → (attempt scope later h.key token ttl (release scope now h rows).2).0 ≡ true
  stale_release_evicts now later token ttl rows e active v other lt runs =
      let (_, _, gone) = release-stored scope h pk at active now later pk rows (omega arith) e v in
      (attempt_free scope h.key pk at later later token ttl pk (release scope now h rows).2
        (omega arith)
        (rw (gone, ==_self pk)
          (unfold live is_expired expires_at_from_ttl in
            ground (arith, eqb_iff e.value.token h.token)))).0
