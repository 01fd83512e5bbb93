-- ===== src/Limiter/Bound.antt =====
-- src/limiter/rate-limiter.ts: the calls inside one window and the tokens that they are allowed.
use kvdb_nodejs.Prelude.{
  ℕ, ◌+◌, ◌-◌, ◌≤◌, ◌<◌, ◌≡◌, Bool, true, false, List, [], ◌∷◌, ◌++◌, none, Text, arith, text_keys,
  get_or, ==_self, if◌then◌else◌, find_row,
}
use kvdb_nodejs.Prelude.Decimal.{decimal}
use kvdb_nodejs.Core.Failure.{Result, ok, err}
use kvdb_nodejs.Core.Expiry.{is_expired, expires_at_from_ttl}
use kvdb_nodejs.Core.Key.{KeyScope, IsValidScope, prefix_of}
use kvdb_nodejs.Drivers.Sqlite.{Rows}
use kvdb_nodejs.Drivers.Sqlite.View.{view, live}
use kvdb_nodejs.Table.{value_of}
use kvdb_nodejs.Limiter.{
  RateLimiterOptions, RateLimitResult, window_start, estimate, cur_key, result_of, consume,
}
use kvdb_nodejs.Limiter.Window.{consume_lem}

-- A call of `consume`: its time and its tokens.
abbrev pub Call : Type 0
Call = ℕ × ℕ

abbrev pub is_allowed : Result RateLimitResult → Bool
is_allowed (ok r) = r.allowed
is_allowed (err e) = false

-- The calls come in order and inside the window that begins at `start`.
abbrev pub InWindow : RateLimiterOptions → ℕ → ℕ → List Call → Type 0
InWindow o start from [] = Unit
InWindow o start from ((now, tokens) ∷ calls) =
    (from ≤ now) × (window_start o.window_ms now ≡ start) × InWindow o start now calls

module _ (scope : KeyScope) (o : RateLimiterOptions) (key : Text) where
  -- The tokens of the calls that were allowed.
  unfoldable pub admitted : List Call → Rows ℕ → ℕ
  admitted [] rows = 0
  admitted ((now, tokens) ∷ calls) rows =
      let (result, rows') = consume scope o now key tokens rows in
      (if is_allowed result then tokens else 0) + admitted calls rows'

  abbrev pub counter_key : ℕ → Text
  counter_key start = prefix_of scope ++ (key ++ b':' ∷ decimal start)

  -- The counter reads `c` until the window ends.
  abbrev Counts : ℕ → ℕ → ℕ → Rows ℕ → Type 0
  Counts start from c rows =
      (t : ℕ)
      → from ≤ t
      → t < start + o.window_ms
      → get_or 0 (value_of (view t (counter_key start) rows)) ≡ c

  window_start_bounds :
      (now start : ℕ)
      → 0 < o.window_ms
      → window_start o.window_ms now ≡ start
      → (start ≤ now) × (now < start + o.window_ms)
  unfolding window_start
  window_start_bounds now start pos e = grind arith

  module _ (valid : IsValidScope scope) (pos : 0 < o.window_ms) where
    Counts-after :
        (start from c now tokens : ℕ) (rows : Rows ℕ)
        → Counts start from c rows
        → from ≤ now
        → window_start o.window_ms now ≡ start
        → Counts start now (c + tokens) (consume scope o now key tokens rows).1
    Counts-after start from c now tokens rows counts le e t lt within =
        let inside = window_start_bounds now start pos e in
        let stored =
          rw e at (consume_lem scope valid o key now t tokens (counter_key start) rows lt).1 in
        rw (stored, ==_self (counter_key start), counts now le inside.1)
          (unfold live is_expired expires_at_from_ttl in ground arith)

    allowed_fits :
        (start from c now tokens : ℕ) (rows : Rows ℕ)
        → Counts start from c rows
        → from ≤ now
        → window_start o.window_ms now ≡ start
        → is_allowed (consume scope o now key tokens rows).0 ≡ true
        → c + tokens ≤ o.limit
    allowed_fits start from c now tokens rows counts le e yes' =
        let inside = window_start_bounds now start pos e in
        let result = (consume_lem scope valid o key now now tokens [] rows (omega arith)).0 in
        let seen : get_or 0 (value_of (view now (prefix_of scope ++ cur_key o now key) rows)) ≡ c =
          rw e (counts now le inside.1) in
        let fits = rw (result, seen) at yes' in unfold result_of estimate in ground (arith, fits)

    admitted_within :
        (start from c : ℕ) (calls : List Call) (rows : Rows ℕ)
        → Counts start from c rows
        → InWindow o start from calls
        → admitted calls rows ≤ o.limit - c
    unfolding admitted
    admitted_within start from c [] rows counts inside = omega arith
    admitted_within start from c ((now, tokens) ∷ calls) rows counts inside = ground (
      arith,
      allowed_fits start from c now tokens rows counts inside.0 inside.1,
      admitted_within start now (c + tokens) calls (consume scope o now key tokens rows).1
          (Counts-after start from c now tokens rows counts inside.0 inside.1) inside.2,
    )

    -- Over any calls that come in order inside one window, in a table that has no counter for it yet,
    -- the tokens of the calls that are allowed sum up to at most the limit, whatever was consumed in
    -- the window before.
    pub admitted-le-limit :
        (start : ℕ) (calls : List Call) (rows : Rows ℕ)
        → find_row (counter_key start) rows ≡ none
        → InWindow o start start calls
        → admitted calls rows ≤ o.limit
    admitted-le-limit start calls rows fresh inside = omega (
      arith,
      admitted_within start start 0 calls rows (λ t _ _. unfold view live in rw fresh) inside,
    )
