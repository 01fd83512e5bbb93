-- ===== src/Cron/Search.antt =====
-- src/schedule/cron-parser.ts: getNextCronTime.
use kvdb_nodejs.Prelude.{
  ℕ, zero, suc, ◌+◌, ◌*◌, ◌/◌, Bool, false, ◌&&◌, ◌||◌, not, List, [], ◌∷◌, Text, eqb,
  if◌then◌else◌,
}
use kvdb_nodejs.Core.Failure.{Result, ok, err, ◌>>=◌}
use kvdb_nodejs.Cron.{ParsedCron, config_error, parse_cron_expression}

-- What the search asks of a `Date` at a whole minute, and the first minutes of the next month, day and
-- hour, which `setMonth`, `setDate` and `setHours` go to.
pub record Calendar : Type 0 where
  pub month_of : ℕ → ℕ
  pub day_of_month : ℕ → ℕ
  pub day_of_week : ℕ → ℕ
  pub hour_of : ℕ → ℕ
  pub minute_of : ℕ → ℕ
  pub next_month : ℕ → ℕ
  pub next_day : ℕ → ℕ
  pub next_hour : ℕ → ℕ

-- `Set.prototype.has`
unfoldable pub has_number : ℕ → List ℕ → Bool
has_number n [] = false
has_number n (m ∷ ms) = eqb n m || has_number n ms

abbrev pub max_iterations : ℕ
max_iterations = 5 * 366 * 24 * 60

module _ (calendar : Calendar) where
  -- One turn of the loop: the minute matches, or the search goes on at a later one.
  unfoldable pub goes_to : ParsedCron → ℕ → ℕ
  goes_to parsed t =
      if not (has_number (calendar.month_of t) parsed.months)
      then calendar.next_month t
      else if not (has_number (calendar.day_of_month t) parsed.days_of_month)
          || not (has_number (calendar.day_of_week t) parsed.days_of_week)
      then calendar.next_day t
      else if not (has_number (calendar.hour_of t) parsed.hours)
      then calendar.next_hour t
      else suc t

  unfoldable pub matches_time : ParsedCron → ℕ → Bool
  matches_time parsed t =
      has_number (calendar.month_of t) parsed.months
      && (has_number (calendar.day_of_month t) parsed.days_of_month
          && (has_number (calendar.day_of_week t) parsed.days_of_week
              && (has_number (calendar.hour_of t) parsed.hours
                  && has_number (calendar.minute_of t) parsed.minutes)))

  unfoldable pub search_time : ParsedCron → ℕ → ℕ → Result ℕ
  search_time parsed zero t = err config_error
  search_time parsed (suc left) t =
      let later = search_time parsed left (goes_to parsed t) in
      if matches_time parsed t then ok t else later

  -- In milliseconds, on whole minutes: the search starts at the minute after the given time.
  unfoldable pub get_next_cron_time : Text → ℕ → Result ℕ
  get_next_cron_time expression from = parse_cron_expression expression >>= λ parsed.
      search_time parsed max_iterations (from / 60000 + 1) >>= λ t. ok (t * 60000)

-- What a test unfolds to search in a concrete calendar.
unfoldable pub search_runs : Unit {0}
unfolding has_number goes_to matches_time search_time get_next_cron_time
search_runs = tt
