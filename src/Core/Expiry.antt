-- ===== src/Core/Expiry.antt =====
-- src/core/expiry.ts, with the `RawEntry` of src/cache/types.ts. Times and TTLs are milliseconds.
use kvdb_nodejs.Prelude.{
  ℕ, ◌+◌, ◌-◌, ◌≤◌, ◌≡◌, refl, Bool, true, false, Option, none, some, ltb, leb, arith,
  if◌then◌else◌,
}

-- The text of the value is kept as the value that it encodes.
pub record RawEntry {ℓ} (V : Type ℓ) : Type ℓ where
  pub value : V
  pub expires_at : Option ℕ

unfoldable pub expires_at_from_ttl : Option ℕ → ℕ → Option ℕ
expires_at_from_ttl none now = none
expires_at_from_ttl (some ttl) now = some (now + ttl)

-- `expiresAt !== undefined && expiresAt <= nowMs`
unfoldable pub passed : Option ℕ → ℕ → Bool
passed none now = false
passed (some t) now = leb t now

unfoldable pub is_expired {ℓ} : {V : Type ℓ} → RawEntry V → ℕ → Bool
unfolding passed
is_expired e now = passed e.expires_at now

-- `overdue n` is the number -n, and `forever` is Infinity.
pub data Remaining : Type 0 where
  forever : Remaining
  left overdue : ℕ → Remaining

unfoldable pub remaining_of : Option ℕ → ℕ → Remaining
remaining_of none now = forever
remaining_of (some t) now = if ltb t now then overdue (now - t) else left (t - now)

unfoldable pub remaining_ttl {ℓ} : {V : Type ℓ} → RawEntry V → ℕ → Remaining
unfolding remaining_of
remaining_ttl e now = remaining_of e.expires_at now

-- `ttlFromExpiry` of src/core/table.ts: at least 1 once the expiry has passed.
unfoldable pub ttl_from_expiry : Option ℕ → ℕ → Option ℕ
ttl_from_expiry none now = none
ttl_from_expiry (some t) now = some (if ltb now t then t - now else 1)

-- An entry with a TTL is live at its expiry minus one and expired from its expiry on.
pub passed-expires_at_from_ttl :
    (ttl now later : ℕ) → passed (expires_at_from_ttl (some ttl) now) later ≡ leb (now + ttl) later
unfolding passed expires_at_from_ttl
passed-expires_at_from_ttl ttl now later = refl

-- Rewriting a live entry with its remaining TTL keeps its expiry.
pub expires_at_from_ttl-ttl_from_expiry :
    (e : Option ℕ) (now : ℕ)
    → passed e now ≡ false
    → expires_at_from_ttl (ttl_from_expiry e now) now ≡ e
unfolding passed expires_at_from_ttl ttl_from_expiry
expires_at_from_ttl-ttl_from_expiry none now h = refl
expires_at_from_ttl-ttl_from_expiry (some t) now h = ground arith

-- What has expired stays expired.
pub passed_mono :
    (e : Option ℕ) (now later : ℕ) → now ≤ later → passed e now ≡ true → passed e later ≡ true
unfolding passed
passed_mono none now later h p = cc
passed_mono (some t) now later h p = ground arith
