-- ===== src/Cron/Next.antt =====
-- `getNextCronTime` returns the first time that matches.
use kvdb_nodejs.Prelude.{
  ltb, lt_of_ltb, ℕ, zero, suc, ◌+◌, ◌-◌, ◌*◌, ◌/◌, ◌<◌, ◌≤◌, ◌≡◌, ◌⊎◌, inl, inr, refl, ap, Bool,
  true, false, ◌&&◌, not, Text, arith, Bool-cases, and_both,
}
use mathlib.Core.Path.{subst}
use kvdb_nodejs.Core.Failure.{Result, ok, err, ◌>>=◌}
use kvdb_nodejs.Cron.{ParsedCron, config_error, parse_cron_expression}
use kvdb_nodejs.Cron.Search.{
  Calendar, has_number, max_iterations, goes_to, matches_time, search_time, get_next_cron_time,
}

-- A calendar without shifts: time goes on, and until the next month the month stays, until the next day
-- the two days, and until the next hour the hour.
pub record IsSteady (c : Calendar) : Type 0 where
  pub month_later : (t : ℕ) → t < c.next_month t
  pub month_stays : (t u : ℕ) → t ≤ u → u < c.next_month t → c.month_of u ≡ c.month_of t
  pub day_later : (t : ℕ) → t < c.next_day t
  pub day_stays :
      (t u : ℕ)
      → t ≤ u
      → u < c.next_day t
      → (c.day_of_month u ≡ c.day_of_month t) × (c.day_of_week u ≡ c.day_of_week t)
  pub hour_later : (t : ℕ) → t < c.next_hour t
  pub hour_stays : (t u : ℕ) → t ≤ u → u < c.next_hour t → c.hour_of u ≡ c.hour_of t

lt_or_ge : (a b : ℕ) → (a < b) ⊎ (b ≤ a)
lt_or_ge a b = elim (Bool-cases (ltb a b)) [
  | inl y ↦ inl (lt_of_ltb a b y)
  | inr n ↦ inr (ground (arith, n))
]

-- No minute of a stretch matches.
abbrev pub NoneIn : Calendar → ParsedCron → ℕ → ℕ → Type 0
NoneIn c parsed from to = (u : ℕ) → from ≤ u → u < to → matches_time c parsed u ≡ false

and_fails : (b : Bool) {d : Bool} → d ≡ false → (b && d) ≡ false
and_fails true h = h
and_fails false h = refl

the_same : (t u : ℕ) → t ≤ u → u < suc t → t ≡ u
the_same t u le lt = omega arith

joined :
    (c : Calendar) (parsed : ParsedCron) (from middle to : ℕ)
    → NoneIn c parsed from middle
    → NoneIn c parsed middle to
    → NoneIn c parsed from to
joined c parsed from middle to before after u le lt = elim (lt_or_ge u middle) [
  | inl early ↦ before u le early
  | inr late ↦ after u late lt
]

-- None of the `n` minutes from `t` on matches.
unfoldable pub none_match : Calendar → ParsedCron → ℕ → ℕ → Bool
none_match c parsed zero t = true
none_match c parsed (suc n) t = not (matches_time c parsed t) && none_match c parsed n (suc t)

module _ (c : Calendar) (parsed : ParsedCron) where
  none_match-of : (n t : ℕ) → NoneIn c parsed t (t + n) → none_match c parsed n t ≡ true
  unfolding none_match
  none_match-of zero t h = refl
  none_match-of (suc n) t h =
      and_both (ap not (h t (omega arith) (omega arith)))
        (none_match-of n (suc t) (λ u le lt. h u (omega arith) (omega arith)))

  module _ (steady : IsSteady c) where
    -- A turn that finds no match goes on, and skips nothing that matches.
    skips :
        (t : ℕ)
        → matches_time c parsed t ≡ false
        → (t < goes_to c parsed t) × NoneIn c parsed t (goes_to c parsed t)
    unfolding goes_to matches_time
    skips t fails = elim (Bool-cases (has_number (c.month_of t) parsed.months)) [
      | inr month ↦
          rw month (steady.month_later t, λ u le lt. rw (steady.month_stays t u le lt, month) refl)
      | inl month ↦ elim (Bool-cases (has_number (c.day_of_month t) parsed.days_of_month)) [
        | inr day ↦
            rw (month, day)
              (
                steady.day_later t,
                λ u le lt.
                    and_fails (has_number (c.month_of u) parsed.months)
                      (rw ((steady.day_stays t u le lt).0, day) refl),
              )
        | inl day ↦ elim (Bool-cases (has_number (c.day_of_week t) parsed.days_of_week)) [
          | inr week ↦
              rw (month, day, week)
                (
                  steady.day_later t,
                  λ u le lt. and_fails (has_number (c.month_of u) parsed.months) (
                      and_fails (has_number (c.day_of_month u) parsed.days_of_month)
                        (rw ((steady.day_stays t u le lt).1, week) refl)),
                )
          | inl week ↦ elim (Bool-cases (has_number (c.hour_of t) parsed.hours)) [
            | inr hour ↦
                rw (month, day, week, hour)
                  (
                    steady.hour_later t,
                    λ u le lt. and_fails (has_number (c.month_of u) parsed.months) (
                        and_fails (has_number (c.day_of_month u) parsed.days_of_month) (
                          and_fails (has_number (c.day_of_week u) parsed.days_of_week)
                            (rw (steady.hour_stays t u le lt, hour) refl))),
                  )
            | inl hour ↦
                rw (month, day, week, hour)
                  (
                    omega arith,
                    λ u le lt.
                        subst (λ v. matches_time c parsed v ≡ false) (the_same t u le lt) fails,
                  )
          ]
        ]
      ]
    ]

    -- The first match from `t` on, or none for as many minutes as there are turns.
    abbrev Finds : ℕ → ℕ → Result ℕ → Type 0
    Finds left t (ok r) = (t ≤ r) × (matches_time c parsed r ≡ true) × NoneIn c parsed t r
    Finds left t (err e) = (e ≡ config_error) × NoneIn c parsed t (t + left)

    Finds-later :
        (left t later : ℕ) (r : Result ℕ)
        → t < later
        → NoneIn c parsed t later
        → Finds left later r
        → Finds (suc left) t r
    Finds-later left t later (ok r) lt before (le, yes', after) =
        (omega arith, yes', λ u from to. joined c parsed t later r before after u from to)
    Finds-later left t later (err e) lt before (same, after) = (
      same,
      λ u from to. joined c parsed t later (later + left) before after u from (omega arith),
    )

    search_time-Finds : (left t : ℕ) → Finds left t (search_time c parsed left t)
    unfolding search_time
    search_time-Finds zero t = (refl, λ u le lt. absurd (omega arith))
    search_time-Finds (suc left) t = elim (Bool-cases (matches_time c parsed t)) [
      | inl found ↦ rw found (omega arith, found, λ u le lt. absurd (omega arith))
      | inr fails ↦
          let (lt, before) = skips t fails in
          rw fails (
            Finds-later left t (goes_to c parsed t) (search_time c parsed left (goes_to c parsed t))
              lt before (search_time-Finds left (goes_to c parsed t)))
    ]

-- In milliseconds: the result is the first matching minute after `from`; there is an error only where
-- the expression is refused, with that error, or where no minute within the bound matches.
abbrev pub FirstTime : Calendar → ℕ → Result ParsedCron → Result ℕ → Type 0
FirstTime c from (ok parsed) (ok ms) =
    (t : ℕ) × (ms ≡ t * 60000)
    × (from < ms)
    × (matches_time c parsed t ≡ true)
    × (none_match c parsed (t - (from / 60000 + 1)) (from / 60000 + 1) ≡ true)
FirstTime c from (ok parsed) (err e) =
    (e ≡ config_error) × (none_match c parsed max_iterations (from / 60000 + 1) ≡ true)
FirstTime c from (err e) (err e') = e' ≡ e
FirstTime c from (err e) (ok ms) = ⊥

after_from : (from t : ℕ) → from / 60000 + 1 ≤ t → from < t * 60000
after_from from t h = omega (arith, h)

back_to : {s t u : ℕ} → s ≤ t → u < s + (t - s) → u < t
back_to h k = omega (arith, h, k)

module _ (c : Calendar) (steady : IsSteady c) (from : ℕ) where
  found_first :
      (parsed : ParsedCron) (start left : ℕ) (r : Result ℕ)
      → start ≡ from / 60000 + 1
      → left ≡ max_iterations
      → Finds c parsed steady left start r
      → FirstTime c from (ok parsed) (r >>= λ t. ok (t * 60000))
  found_first parsed start left (ok t) e e' (le, yes', before) = (
    t,
    refl,
    after_from from t (subst (λ x. x ≤ t) e le),
    yes',
    subst (λ x. none_match c parsed (t - x) x ≡ true) e
        (none_match-of c parsed (t - start) start (λ u a b. before u a (back_to le b))),
  )
  found_first parsed start left (err f) e e' (same, before) = (
    same,
    subst (λ n. none_match c parsed n (from / 60000 + 1) ≡ true) e'
        (subst (λ x. none_match c parsed left x ≡ true) e
          (none_match-of c parsed left start before)),
  )

  -- In a calendar without shifts, `getNextCronTime` returns the first minute after the given time
  -- that matches the expression; it throws the error of an expression that is refused, and a
  -- configuration error only where none of the minutes of five years of 366 days matches.
  pub next_time-FirstTime :
      (expression : Text)
      → FirstTime c from (parse_cron_expression expression) (get_next_cron_time c expression from)
  unfolding get_next_cron_time
  next_time-FirstTime expression = go (parse_cron_expression expression)
    where
      go :
          (p : Result ParsedCron)
          → FirstTime c from p (
              p >>= λ parsed.
              search_time c parsed max_iterations (from / 60000 + 1) >>= λ t. ok (t * 60000))
      go (err e) = refl
      go (ok parsed) =
          found_first parsed (from / 60000 + 1) max_iterations _ refl refl
            (search_time-Finds c parsed steady max_iterations (from / 60000 + 1))
