-- ===== src/Limiter.antt =====
-- src/limiter/rate-limiter.ts over its table of counters. The weighted count of the previous window,
-- a floating-point product in the source, is the exact quotient, rounded down.
pub mod Window
pub mod Bound
mod Tests
use kvdb_nodejs.Prelude.{
  ℕ, ◌+◌, ◌-◌, ◌*◌, ◌/◌, ◌≡◌, Bool, true, false, List, [], ◌∷◌, ◌++◌, Option, none, some, Text,
  get_or, ltb, leb, eqb, if◌then◌else◌,
}
use kvdb_nodejs.Prelude.Decimal.{decimal}
use kvdb_nodejs.Core.Failure.{Failure, Result, ok, err, plain_error, ◌>>=◌, ◌>>◌, throw_if}
use kvdb_nodejs.Core.Key.{KeyScope}
use kvdb_nodejs.Drivers.Sqlite.{Rows}
use kvdb_nodejs.Table

pub record RateLimiterOptions : Type 0 where
  pub window_ms : ℕ
  pub limit : ℕ

-- The constructor's checks.
unfoldable pub rate_limiter : ℕ → ℕ → Result RateLimiterOptions
rate_limiter window_ms limit = do
  throw_if (leb window_ms 0) (plain_error "RateLimiter windowMs must be greater than 0")
  throw_if (leb limit 0) (plain_error "RateLimiter limit must be greater than 0")
  ok (record { window_ms = window_ms; limit = limit })

pub record RateLimitResult : Type 0 where
  pub allowed : Bool
  pub limit : ℕ
  pub remaining : ℕ
  pub reset_ms : ℕ
  pub current : ℕ

unfoldable pub window_start : ℕ → ℕ → ℕ
window_start window_ms now = now / window_ms * window_ms

abbrev pub cur_key : RateLimiterOptions → ℕ → Text → Text
cur_key o now key = key ++ b':' ∷ decimal (window_start o.window_ms now)

-- The window before the first one begins at a negative time.
unfoldable pub prev_key : RateLimiterOptions → ℕ → Text → Text
prev_key o now key =
    let cur = window_start o.window_ms now in
    key
    ++ b':'
      ∷ (if ltb cur o.window_ms
          then b'-' ∷ decimal (o.window_ms - cur)
          else decimal (cur - o.window_ms))

unfoldable pub estimate : RateLimiterOptions → ℕ → ℕ → ℕ → ℕ
estimate o elapsed prev_val cur_val = prev_val * (o.window_ms - elapsed) / o.window_ms + cur_val

-- The result that both `consume` and `check` build from the two counters.
unfoldable pub result_of : RateLimiterOptions → ℕ → ℕ → ℕ → RateLimitResult
unfolding estimate window_start
result_of o now prev_val cur_val =
    let elapsed = now - window_start o.window_ms now in
    let estimated = estimate o elapsed prev_val cur_val in
    record {
      allowed = leb estimated o.limit;
      limit = o.limit;
      remaining = o.limit - estimated;
      reset_ms = o.window_ms - elapsed;
      current = estimated;
    }

-- One step of a method that reads and writes the table and may throw.
infixl 5 ◌>>>◌
abbrev pub ◌>>>◌ :
    {A B : Type 0} → Result A × Rows ℕ → (A → Rows ℕ → Result B × Rows ℕ) → Result B × Rows ℕ
(ok a, rows) >>> f = f a rows
(err e, rows) >>> f = (err e, rows)

unfoldable pub consume :
    KeyScope → RateLimiterOptions → ℕ → Text → ℕ → Rows ℕ → Result RateLimitResult × Rows ℕ
consume scope o now key tokens rows =
    Table.get scope now (prev_key o now key) rows >>> λ prev rows1.
    Table.increment scope now (cur_key o now key) tokens 0 (some (o.window_ms * 2)) rows1
    >>> λ cur_val rows2. (ok (result_of o now (get_or 0 prev) cur_val), rows2)

unfoldable pub check :
    KeyScope → RateLimiterOptions → ℕ → Text → Rows ℕ → Result RateLimitResult × Rows ℕ
check scope o now key rows = Table.get scope now (prev_key o now key) rows >>> λ prev rows1.
    Table.get scope now (cur_key o now key) rows1 >>> λ cur rows2.
    (ok (result_of o now (get_or 0 prev) (get_or 0 cur)), rows2)

unfoldable pub reset :
    KeyScope → RateLimiterOptions → ℕ → Text → Rows ℕ → Result (Unit {0}) × Rows ℕ
reset scope o now key rows = Table.delete scope (cur_key o now key) rows >>> λ gone1 rows1.
    Table.delete scope (prev_key o now key) rows1 >>> λ gone2 rows2. (ok tt, rows2)
