-- ===== src/Cron/Tests.antt =====
-- Cron expressions in a calendar of twelve months of thirty days, whose time zero is a Sunday.
use kvdb_nodejs.Prelude.{
  ℕ, ◌+◌, ◌*◌, ◌/◌, ◌%◌, ◌<◌, ◌≤◌, ◌≡◌, refl, ap, [], ◌∷◌, codes, Text, arith,
}
use kvdb_nodejs.Core.Failure.{ok, err}
use kvdb_nodejs.Cron.{cron_runs, parse_cron_expression, ParsedCron, type_error}
use kvdb_nodejs.Cron.Search.{search_runs, Calendar, get_next_cron_time}
use kvdb_nodejs.Cron.Range.{InRange, parse_cron-InRange}
use kvdb_nodejs.Cron.Next.{IsSteady, FirstTime, next_time-FirstTime}

abbrev even_months : Calendar
even_months = record {
  month_of = λ t. t / 43200 % 12 + 1;
  day_of_month = λ t. t / 1440 % 30 + 1;
  day_of_week = λ t. t / 1440 % 7;
  hour_of = λ t. t / 60 % 24;
  minute_of = λ t. t % 60;
  next_month = λ t. (t / 43200 + 1) * 43200;
  next_day = λ t. (t / 1440 + 1) * 1440;
  next_hour = λ t. (t / 60 + 1) * 60;
}

month_block : (t u : ℕ) → t ≤ u → u < (t / 43200 + 1) * 43200 → u / 43200 ≡ t / 43200
month_block t u le lt = omega (arith, le, lt)

day_block : (t u : ℕ) → t ≤ u → u < (t / 1440 + 1) * 1440 → u / 1440 ≡ t / 1440
day_block t u le lt = omega (arith, le, lt)

hour_block : (t u : ℕ) → t ≤ u → u < (t / 60 + 1) * 60 → u / 60 ≡ t / 60
hour_block t u le lt = omega (arith, le, lt)

even_months-IsSteady : IsSteady even_months
even_months-IsSteady = record {
  month_later = λ t. omega arith;
  month_stays = λ t u le lt. ap (λ m. m % 12 + 1) (month_block t u le lt);
  day_later = λ t. omega arith;
  day_stays = λ t u le lt.
      (ap (λ d. d % 30 + 1) (day_block t u le lt), ap (λ d. d % 7) (day_block t u le lt));
  hour_later = λ t. omega arith;
  hour_stays = λ t u le lt. ap (λ h. h % 24) (hour_block t u le lt);
}

-- Every half hour, at six and seven on the second of a month.
abbrev mornings : Text
mornings = codes "*/30 6-7 2 * *"

abbrev mornings_cron : ParsedCron
mornings_cron = record {
  minutes = 0 ∷ 30 ∷ [];
  hours = 6 ∷ 7 ∷ [];
  days_of_month = 2 ∷ [];
  months = 1 ∷ 2 ∷ 3 ∷ 4 ∷ 5 ∷ 6 ∷ 7 ∷ 8 ∷ 9 ∷ 10 ∷ 11 ∷ 12 ∷ [];
  days_of_week = 0 ∷ 1 ∷ 2 ∷ 3 ∷ 4 ∷ 5 ∷ 6 ∷ 0 ∷ [];
}

parse_cron-InRange_example : InRange (ok mornings_cron)
unfolding cron_runs
parse_cron-InRange_example = parse_cron-InRange mornings

-- From eight past midnight on the first: the next day at six.
next_runs : get_next_cron_time even_months mornings 480000 ≡ ok 108000000
unfolding cron_runs search_runs
next_runs = refl

next_time-FirstTime_example : FirstTime even_months 480000 (ok mornings_cron) (ok 108000000)
unfolding cron_runs search_runs
next_time-FirstTime_example = next_time-FirstTime even_months even_months-IsSteady 480000 mornings

-- A range outside the field is cut to it, and leaves nothing.
empty_minutes :
    parse_cron_expression (codes "70-80 6 2 1 0")
    ≡ ok (record {
      minutes = [];
      hours = 6 ∷ [];
      days_of_month = 2 ∷ [];
      months = 1 ∷ [];
      days_of_week = 0 ∷ [];
    })
unfolding cron_runs
empty_minutes = refl

-- A dash after the slash: the last digit is left out, and the range begins at five.
dash_in_step :
    parse_cron_expression (codes "57/2-3 6 2 1 0") ≡ parse_cron_expression (codes "5-57/2 6 2 1 0")
unfolding cron_runs
dash_in_step = refl

inherited_alias : parse_cron_expression (codes "constructor") ≡ err type_error
unfolding cron_runs
inherited_alias = refl
