-- ===== src/Cron/Range.antt =====
-- What a cron expression is parsed to lies in the ranges of its fields.
use kvdb_nodejs.Prelude.{
  ℕ, zero, suc, ◌+◌, ◌≤◌, ◌≡◌, ◌⊎◌, inl, inr, Option, none, some, find_row, refl, min, max, Bool,
  true, false, List, [], ◌∷◌, ◌++◌, map, Text, codes, split, is_prefix, has_unit, leb, ltb, eqb,
  ◌==◌, text_keys, if◌then◌else◌, arith, Bool-cases, All,
}
use kvdb_nodejs.Core.Failure.{Result, ok, err, ◌>>=◌}
use kvdb_nodejs.Cron.{
  config_error, Parsed, not_a_number, negative, natural, parse_int, stepped, every_step, start_text,
  end_text, type_error, found_alias, before_unit, after_unit, step_of, star_part, range_part,
  number_part, parse_part, parse_parts, parse_cron_field, ParsedCron, seven_is_zero,
  parse_fields_of, parse_cron_expression, resolve, words_of, aliases,
}
use kvdb_nodejs.Core.TableSchema.{is_listed, inherited_names}

abbrev pub IsIn : ℕ → ℕ → ℕ → Type 0
IsIn least most n = (least ≤ n) × (n ≤ most)

-- All numbers are in the range, or the error is a configuration error.
abbrev pub Ranges : ℕ → ℕ → Result (List ℕ) → Type 0
Ranges least most (ok ns) = All (IsIn least most) ns
Ranges least most (err e) = e ≡ config_error

All-append : (P : ℕ → Type 0) (ms ns : List ℕ) → All P ms → All P ns → All P (ms ++ ns)
All-append P [] ns h k = k
All-append P (m ∷ ms) ns h k = (h.0, All-append P ms ns h.1 k)

stepped-IsIn :
    (fuel from to step least most : ℕ)
    → least ≤ from
    → to ≤ most
    → All (IsIn least most) (stepped fuel from to step)
unfolding stepped
stepped-IsIn zero from to step least most h k = tt
stepped-IsIn (suc fuel) from to step least most h k = elim (Bool-cases (leb from to)) [
  | inl y ↦ rw y (
    (h, ground (arith, y, k)),
    stepped-IsIn fuel (from + step) to step least most (omega (arith, h)) k,
  )
  | inr n ↦ rw n tt
]

every_step-IsIn :
    (from to step least most : ℕ)
    → least ≤ from
    → to ≤ most
    → All (IsIn least most) (every_step from to step)
unfolding every_step
every_step-IsIn from to step least most h k = stepped-IsIn (suc to) from to step least most h k

Ranges-if :
    (least most : ℕ) (b : Bool) (r s : Result (List ℕ))
    → Ranges least most r
    → Ranges least most s
    → Ranges least most (if b then r else s)
Ranges-if least most true r s h k = h
Ranges-if least most false r s h k = k

star_part-Ranges : (least most : ℕ) (step : Parsed) → Ranges least most (star_part least most step)
star_part-Ranges least most (natural (suc step)) =
    every_step-IsIn least most (suc step) least most (omega arith) (omega arith)
star_part-Ranges least most (natural zero) = refl
star_part-Ranges least most not_a_number = refl
star_part-Ranges least most (negative n) = refl

range_part-Ranges :
    (least most : ℕ) (start end step : Parsed)
    → Ranges least most (range_part least most start end step)
range_part-Ranges least most (natural start) (natural end) (natural (suc step)) =
    Ranges-if least most (ltb end start) _ _ refl (
      every_step-IsIn (max least start) (min most end) (suc step) least most (omega arith)
        (omega arith))
range_part-Ranges least most start end step = refl

number_part-Ranges : (least most : ℕ) (n : Parsed) → Ranges least most (number_part least most n)
number_part-Ranges least most (natural n) = elim (Bool-cases (ltb n least)) [
  | inl y ↦ rw y refl
  | inr low ↦ elim (Bool-cases (ltb most n)) [
    | inl y ↦ rw (low, y) refl
    | inr high ↦ rw (low, high) ((ground (arith, low), ground (arith, high)), tt)
  ]
]
number_part-Ranges least most not_a_number = refl
number_part-Ranges least most (negative n) = refl

parse_part-Ranges : (least most : ℕ) (part : Text) → Ranges least most (parse_part least most part)
unfolding parse_part
parse_part-Ranges least most part =
    Ranges-if least most (part == codes "*") _ _
      (every_step-IsIn least most 1 least most (omega arith) (omega arith))
      (Ranges-if least most (is_prefix (codes "*/") part) _ _ (star_part-Ranges least most _) (
        Ranges-if least most (has_unit b'-' part) _ _
          (range_part-Ranges least most (parse_int (start_text (before_unit b'/' part)))
            (parse_int (end_text (before_unit b'/' part))) (step_of (after_unit b'/' part)))
          (number_part-Ranges least most (parse_int part))))

Ranges-append :
    (least most : ℕ) (r s : Result (List ℕ))
    → Ranges least most r
    → Ranges least most s
    → Ranges least most (r >>= λ ms. s >>= λ ns. ok (ms ++ ns))
Ranges-append least most (err e) s h k = h
Ranges-append least most (ok ms) (err e) h k = k
Ranges-append least most (ok ms) (ok ns) h k = All-append (IsIn least most) ms ns h k

parse_parts-Ranges :
    (least most : ℕ) (parts : List Text) → Ranges least most (parse_parts least most parts)
unfolding parse_parts
parse_parts-Ranges least most [] = tt
parse_parts-Ranges least most (part ∷ parts) =
    Ranges-append least most (parse_part least most part) (parse_parts least most parts)
      (parse_part-Ranges least most part) (parse_parts-Ranges least most parts)

field-Ranges :
    (field : Text) (least most : ℕ) → Ranges least most (parse_cron_field field least most)
unfolding parse_cron_field
field-Ranges field least most = parse_parts-Ranges least most (split b',' field)

-- Minutes to 59, hours to 23, days from 1 to 31, months from 1 to 12, and days of the week to 6; or a
-- configuration error.
abbrev pub InRange : Result ParsedCron → Type 0
InRange (ok p) =
    All (IsIn 0 59) p.minutes
    × All (IsIn 0 23) p.hours
    × All (IsIn 1 31) p.days_of_month
    × All (IsIn 1 12) p.months
    × All (IsIn 0 6) p.days_of_week
InRange (err e) = e ≡ config_error

InRange-next :
    (least most : ℕ) (r : Result (List ℕ)) (next : List ℕ → Result ParsedCron)
    → Ranges least most r
    → ((ns : List ℕ) → All (IsIn least most) ns → InRange (next ns))
    → InRange (r >>= next)
InRange-next least most (err e) next h k = h
InRange-next least most (ok ns) next h k = k ns h

seven_is_zero-IsIn : (ns : List ℕ) → All (IsIn 0 7) ns → All (IsIn 0 6) (map seven_is_zero ns)
unfolding seven_is_zero
seven_is_zero-IsIn [] h = tt
seven_is_zero-IsIn (n ∷ ns) ((low, high), h) = elim (Bool-cases (eqb n 7)) [
  | inl y ↦ rw y ((omega arith, omega arith), seven_is_zero-IsIn ns h)
  | inr other ↦ rw other ((low, ground (arith, other, high)), seven_is_zero-IsIn ns h)
]

fields-InRange : (fields : List Text) → InRange (parse_fields_of fields)
unfolding parse_fields_of
fields-InRange (minute ∷ hour ∷ day ∷ month ∷ week_day ∷ []) =
    InRange-next 0 59 _ _ (field-Ranges minute 0 59) λ minutes hm.
      InRange-next 0 23 _ _ (field-Ranges hour 0 23) λ hours hh.
        InRange-next 1 31 _ _ (field-Ranges day 1 31) λ days hd.
          InRange-next 1 12 _ _ (field-Ranges month 1 12) λ months hmo.
            InRange-next 0 7 _ _ (field-Ranges week_day 0 7)
              λ raw hw. (hm, hh, hd, hmo, seven_is_zero-IsIn raw hw)
fields-InRange fields = refl

-- A text of one word that every object inherits as a name.
abbrev pub is_inherited : List Text → Bool
is_inherited (word ∷ []) = is_listed word inherited_names
is_inherited words = false

-- In the ranges; or refused with a configuration error, or with a TypeError for an inherited name.
abbrev pub Parses : List Text → Result ParsedCron → Type 0
Parses words (ok p) = InRange (ok p)
Parses words (err e) = (e ≡ config_error) ⊎ ((e ≡ type_error) × (is_inherited words ≡ true))

InRange-Parses : (words : List Text) (r : Result ParsedCron) → InRange r → Parses words r
InRange-Parses words (ok p) h = h
InRange-Parses words (err e) h = inl h

alias-Parses :
    (word : Text) (found : Option (List Text))
    → Parses (word ∷ []) (found_alias word found >>= parse_fields_of)
alias-Parses word (some words) =
    InRange-Parses (word ∷ []) (parse_fields_of words) (fields-InRange words)
alias-Parses word none = elim (Bool-cases (is_listed word inherited_names)) [
  | inl y ↦ rw y (inr (refl, y))
  | inr n ↦
      rw n (InRange-Parses (word ∷ []) (parse_fields_of (word ∷ [])) (fields-InRange (word ∷ [])))
]

words-Parses : (words : List Text) → Parses words (resolve words >>= parse_fields_of)
unfolding resolve
words-Parses [] = InRange-Parses [] (parse_fields_of []) (fields-InRange [])
words-Parses (word ∷ []) = alias-Parses word (find_row word aliases)
words-Parses (x ∷ y ∷ words) =
    InRange-Parses (x ∷ y ∷ words) (parse_fields_of (x ∷ y ∷ words))
      (fields-InRange (x ∷ y ∷ words))

-- A cron expression is parsed to minutes up to 59, hours up to 23, days of the month from 1 to 31,
-- months from 1 to 12 and days of the week up to 6, or refused: with a configuration error, or with a
-- TypeError where its one word is a name that every object inherits.
pub parse_cron-InRange :
    (expression : Text) → Parses (words_of expression) (parse_cron_expression expression)
unfolding parse_cron_expression
parse_cron-InRange expression = words-Parses (words_of expression)
