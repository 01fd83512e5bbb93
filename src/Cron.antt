-- ===== src/Cron.antt =====
-- src/schedule/cron-parser.ts: cron expressions and the search for their next time. Times are whole
-- minutes, and the calendar of the local time zone is a parameter.
pub mod Range
pub mod Search
pub mod Next
mod Tests
use kvdb_nodejs.Prelude.{
  ℕ, zero, suc, ◌+◌, ◌-◌, ◌*◌, ◌/◌, ◌≡◌, min, max, Bool, true, false, ◌&&◌, ◌||◌, not, List, [],
  ◌∷◌, ◌++◌, map, Option, none, some, Text, codes, split, drop, length, is_prefix, has_unit, leb,
  ltb, eqb, ◌==◌, text_keys, text_beq, get_or, find_row, filter, if◌then◌else◌,
}
use kvdb_nodejs.Core.Failure.{
  Failure, Result, ok, err, thrown, plain_error, kvdb_config_error, ◌>>=◌, ◌>>◌, throw_if,
}
use kvdb_nodejs.Core.TableSchema.{is_listed, inherited_names}

abbrev pub config_error : Failure
config_error = thrown kvdb_config_error

-- The units that `\s` and `trim` take for white space.
unfoldable pub is_space : ℕ → Bool
is_space c =
    leb 9 c && leb c 13
    || eqb c 32
    || eqb c 160
    || eqb c 5760
    || leb 8192 c && leb c 8202
    || eqb c 8232
    || eqb c 8233
    || eqb c 8239
    || eqb c 8287
    || eqb c 12288
    || eqb c 65279

unfoldable pub is_decimal_digit : ℕ → Bool
is_decimal_digit c = leb 48 c && leb c 57

-- What `Number.parseInt(t, 10)` returns, for a text without leading space: NaN, or a number.
pub data Parsed : Type 0 where
  not_a_number : Parsed
  negative natural : ℕ → Parsed

unfoldable pub leading_digits : ℕ → Text → ℕ
leading_digits n [] = n
leading_digits n (c ∷ t) =
    let rest = leading_digits (n * 10 + (c - 48)) t in if is_decimal_digit c then rest else n

unfoldable pub unsigned : Text → Option ℕ
unsigned [] = none
unsigned (c ∷ t) = if is_decimal_digit c then some (leading_digits 0 (c ∷ t)) else none

abbrev pub positive : Option ℕ → Parsed
positive none = not_a_number
positive (some n) = natural n

abbrev pub negated : Option ℕ → Parsed
negated none = not_a_number
negated (some zero) = natural 0
negated (some (suc n)) = negative (suc n)

unfoldable pub parse_int : Text → Parsed
parse_int [] = not_a_number
parse_int (c ∷ t) =
    if eqb c b'-'
    then negated (unsigned t)
    else if eqb c b'+'
    then positive (unsigned t)
    else positive (unsigned (c ∷ t))

-- `for (let i = from; i <= to; i += step)`; each turn adds at least one, so `to` and one more turns
-- are enough.
unfoldable pub stepped : ℕ → ℕ → ℕ → ℕ → List ℕ
stepped zero from to step = []
stepped (suc fuel) from to step =
    let rest = stepped fuel (from + step) to step in if leb from to then from ∷ rest else []

unfoldable pub every_step : ℕ → ℕ → ℕ → List ℕ
every_step from to step = stepped (suc to) from to step

-- The text before and after the first unit `c`.
unfoldable pub before_unit : ℕ → Text → Text
before_unit c [] = []
before_unit c (x ∷ t) = let rest = before_unit c t in if eqb x c then [] else x ∷ rest

unfoldable pub after_unit : ℕ → Text → Text
after_unit c [] = []
after_unit c (x ∷ t) = let rest = after_unit c t in if eqb x c then t else rest

-- The texts before and after the first dash. Without one, `slice(0, -1)` leaves out the last unit, and
-- `slice(0)` is the whole.
abbrev pub drop_last : Text → Text
drop_last [] = []
drop_last (x ∷ []) = []
drop_last (x ∷ y ∷ t) = x ∷ drop_last (y ∷ t)

abbrev pub start_text : Text → Text
start_text range = if has_unit b'-' range then before_unit b'-' range else drop_last range

abbrev pub end_text : Text → Text
end_text range = if has_unit b'-' range then after_unit b'-' range else range

-- The step of a range: 1 without one, and for an empty one.
unfoldable pub step_of : Text → Parsed
step_of [] = natural 1
step_of (c ∷ t) = parse_int (c ∷ t)

-- A part `*/step`.
abbrev pub star_part : ℕ → ℕ → Parsed → Result (List ℕ)
star_part least most (natural (suc step)) = ok (every_step least most (suc step))
star_part least most _ = err config_error

-- A part `start-end` or `start-end/step`.
abbrev pub range_part : ℕ → ℕ → Parsed → Parsed → Parsed → Result (List ℕ)
range_part least most (natural start) (natural end) (natural (suc step)) =
    if ltb end start
    then err config_error
    else ok (every_step (max least start) (min most end) (suc step))
range_part least most _ _ _ = err config_error

abbrev pub number_part : ℕ → ℕ → Parsed → Result (List ℕ)
number_part least most (natural n) =
    if ltb n least || ltb most n then err config_error else ok (n ∷ [])
number_part least most _ = err config_error

unfoldable pub parse_part : ℕ → ℕ → Text → Result (List ℕ)
parse_part least most part =
    let range = before_unit b'/' part in
    if part == codes "*"
    then ok (every_step least most 1)
    else if is_prefix (codes "*/") part
    then star_part least most (parse_int (drop 2 part))
    else if has_unit b'-' part
    then range_part least most (parse_int (start_text range)) (parse_int (end_text range))
        (step_of (after_unit b'/' part))
    else number_part least most (parse_int part)

unfoldable pub parse_parts : ℕ → ℕ → List Text → Result (List ℕ)
parse_parts least most [] = ok []
parse_parts least most (part ∷ parts) =
    parse_part least most part >>= λ ns. parse_parts least most parts >>= λ rest. ok (ns ++ rest)

-- `parseField`: the set as the list of what is added to it.
unfoldable pub parse_cron_field : Text → ℕ → ℕ → Result (List ℕ)
parse_cron_field field least most = parse_parts least most (split b',' field)

pub record ParsedCron : Type 0 where
  pub minutes : List ℕ
  pub hours : List ℕ
  pub days_of_month : List ℕ
  pub months : List ℕ
  pub days_of_week : List ℕ

abbrev grow_word : ℕ → List Text → List Text
grow_word c [] = (c ∷ []) ∷ []
grow_word c (word ∷ words) = (c ∷ word) ∷ words

unfoldable pub split_at_space : Text → List Text
split_at_space [] = [] ∷ []
split_at_space (c ∷ t) =
    let rest = split_at_space t in if is_space c then [] ∷ rest else grow_word c rest

-- `trim` and `split(/\s+/)`: the words of a text. Space alone has none, where the source has one empty
-- word, which is refused as well.
unfoldable pub words_of : Text → List Text
words_of t = filter (λ word. not (word == [])) (split_at_space t)

-- PREDEFINED_CRON_ALIASES
unfoldable pub aliases : List (Text × List Text)
aliases =
    (codes "@yearly", codes "0" ∷ codes "0" ∷ codes "1" ∷ codes "1" ∷ codes "*" ∷ [])
    ∷ (codes "@annually", codes "0" ∷ codes "0" ∷ codes "1" ∷ codes "1" ∷ codes "*" ∷ [])
    ∷ (codes "@monthly", codes "0" ∷ codes "0" ∷ codes "1" ∷ codes "*" ∷ codes "*" ∷ [])
    ∷ (codes "@weekly", codes "0" ∷ codes "0" ∷ codes "*" ∷ codes "*" ∷ codes "0" ∷ [])
    ∷ (codes "@daily", codes "0" ∷ codes "0" ∷ codes "*" ∷ codes "*" ∷ codes "*" ∷ [])
    ∷ (codes "@midnight", codes "0" ∷ codes "0" ∷ codes "*" ∷ codes "*" ∷ codes "*" ∷ [])
    ∷ (codes "@hourly", codes "0" ∷ codes "*" ∷ codes "*" ∷ codes "*" ∷ codes "*" ∷ [])
    ∷ []

-- One word that is an alias stands for the words of its expression. The lookup also finds what every
-- object inherits, which has no `split`.
abbrev pub type_error : Failure
type_error = plain_error "resolved.split is not a function"

abbrev pub found_alias : Text → Option (List Text) → Result (List Text)
found_alias word (some words) = ok words
found_alias word none = if is_listed word inherited_names then err type_error else ok (word ∷ [])

unfoldable pub resolve : List Text → Result (List Text)
resolve (word ∷ []) = found_alias word (find_row word aliases)
resolve words = ok words

unfoldable pub seven_is_zero : ℕ → ℕ
seven_is_zero d = if eqb d 7 then 0 else d

unfoldable pub parse_fields_of : List Text → Result ParsedCron
parse_fields_of (minute ∷ hour ∷ day ∷ month ∷ week_day ∷ []) =
    parse_cron_field minute 0 59 >>= λ minutes. parse_cron_field hour 0 23 >>= λ hours.
    parse_cron_field day 1 31 >>= λ days. parse_cron_field month 1 12 >>= λ months.
    parse_cron_field week_day 0 7 >>= λ raw. ok (record {
      minutes = minutes;
      hours = hours;
      days_of_month = days;
      months = months;
      days_of_week = map seven_is_zero raw;
    })
parse_fields_of fields = err config_error

unfoldable pub parse_cron_expression : Text → Result ParsedCron
parse_cron_expression expression = resolve (words_of expression) >>= parse_fields_of

-- What a test unfolds to parse a concrete expression.
unfoldable pub cron_runs : Unit {0}
unfolding is_listed parse_cron_expression parse_fields_of words_of split_at_space is_space filter
    resolve aliases find_row text_beq parse_cron_field split parse_parts parse_part before_unit
    after_unit is_prefix has_unit parse_int unsigned leading_digits is_decimal_digit every_step
    stepped step_of seven_is_zero
cron_runs = tt
