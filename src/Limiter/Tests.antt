-- ===== src/Limiter/Tests.antt =====
-- The limiter on concrete inputs.
use kvdb_nodejs.Prelude.{ℕ, ◌≤◌, ◌≡◌, refl, true, List, [], ◌∷◌, some, codes, arith}
use kvdb_nodejs.Prelude.Decimal.{decimal}
use kvdb_nodejs.Core.Failure.{ok}
use kvdb_nodejs.Core.Key.{KeyScope, IsValidScope}
use kvdb_nodejs.Drivers.Sqlite.{Rows}
use kvdb_nodejs.Table.{table_runs}
use kvdb_nodejs.Limiter.{RateLimiterOptions, window_start, prev_key, result_of, consume, check}
use kvdb_nodejs.Limiter.Window.{check-consume}
use kvdb_nodejs.Limiter.Bound.{Call, admitted, admitted-le-limit}

abbrev limits : KeyScope
limits = record { table_prefix = codes "app_"; namespace = codes "_kvdb_rate_limits" }

limits-IsValidScope : IsValidScope limits
unfolding table_runs
limits-IsValidScope = (refl, refl)

abbrev three_a_second : RateLimiterOptions
three_a_second = record { window_ms = 1000; limit = 3 }

-- Two tokens at 900, so that 1200 still weighs one of them.
abbrev before : Rows ℕ
before = (codes "app__kvdb_rate_limits:ip:0", record { value = 2; expires_at = some 2900 }) ∷ []

carries_over :
    (consume limits three_a_second 1200 (codes "ip") 2 before).0
    ≡ ok (record { allowed = true; limit = 3; remaining = 0; reset_ms = 800; current = 3 })
unfolding consume result_of prev_key window_start decimal table_runs
carries_over = refl

check-consume_example :
    (check limits three_a_second 1200
      (codes "ip")
      (consume limits three_a_second 1200 (codes "ip") 2 before).1).0
    ≡ (consume limits three_a_second 1200 (codes "ip") 2 before).0
check-consume_example =
    check-consume limits limits-IsValidScope three_a_second (codes "ip") 1200 2 before (omega arith)

abbrev burst : List Call
burst = (1200, 2) ∷ (1300, 1) ∷ (1999, 1) ∷ []

admitted-le-limit_example : admitted limits three_a_second (codes "ip") burst before ≤ 3
unfolding table_runs decimal window_start
admitted-le-limit_example =
    admitted-le-limit limits three_a_second (codes "ip") limits-IsValidScope (omega arith) 1000
      burst before refl ((omega arith), refl, ((omega arith), refl, ((omega arith), refl, tt)))

burst_admits : admitted limits three_a_second (codes "ip") burst before ≡ 2
unfolding admitted consume result_of prev_key window_start decimal table_runs
burst_admits = refl
