-- ===== src/Contracts/Date.antt =====
-- packages/contracts/src/date.ts: calendar dates, and the constraints of a date field. A step is a
-- natural number. The tests on unknown values that are not strings are left out.
use unifold.Prelude.{
  ℕ, zero, suc, ◌+◌, ◌-◌, ◌*◌, ◌/◌, ◌%◌, Bool, true, false, not, ◌&&◌, ◌||◌, Option, none, some,
  List, [], ◌∷◌, ltb, leb, nat_same, if◌then◌else◌, all, Text, text, text_leb,
}
mod Months
mod Calendar
mod Constraints
mod Tests

pub data JsonDateConstraintIssue : Type 0 where
  maximum minimum range step_anchor step : JsonDateConstraintIssue

-- The years, months and days that a text in the pattern `\d{4}-\d{2}-\d{2}` names.
pub record DateParts : Type 0 where
  pub year : ℕ
  pub month : ℕ
  pub day : ℕ

is_digit : ℕ → Bool
is_digit c = leb b'0' c && leb c b'9'

-- `Number` of digits.
number_from : ℕ → Text → ℕ
number_from n [] = n
number_from n (c ∷ cs) = number_from (n * 10 + (c - b'0')) cs

parts_of : Text → Text → Text → Option DateParts
unfolding is_digit number_from
parts_of year month day =
    if all is_digit year && all is_digit month && all is_digit day
    then some
        (record { year = number_from 0 year; month = number_from 0 month; day = number_from 0 day })
    else none

-- `DATE_PATTERN.exec`
unfoldable pub match_date : Text → Option DateParts
unfolding parts_of
match_date (a ∷ b ∷ c ∷ d ∷ g ∷ e ∷ f ∷ h ∷ i ∷ j ∷ []) =
    if nat_same g b'-' && nat_same h b'-'
    then parts_of (a ∷ b ∷ c ∷ d ∷ []) (e ∷ f ∷ []) (i ∷ j ∷ [])
    else none
match_date _ = none

unfoldable pub is_leap_year : ℕ → Bool
is_leap_year year =
    if nat_same (year % 400) 0
    then true
    else if nat_same (year % 100) 0
    then false
    else nat_same (year % 4) 0

-- `table[month - 1]`
unfoldable pub month_entry : List ℕ → ℕ → Option ℕ
month_entry xs zero = none
month_entry [] (suc n) = none
month_entry (x ∷ xs) (suc zero) = some x
month_entry (x ∷ xs) (suc (suc n)) = month_entry xs (suc n)

abbrev pub days_before_month_table : List ℕ
days_before_month_table = 0 ∷ 31 ∷ 59 ∷ 90 ∷ 120 ∷ 151 ∷ 181 ∷ 212 ∷ 243 ∷ 273 ∷ 304 ∷ 334 ∷ []

abbrev pub days_in_month_table : List ℕ
days_in_month_table = 31 ∷ 28 ∷ 31 ∷ 30 ∷ 31 ∷ 30 ∷ 31 ∷ 31 ∷ 30 ∷ 31 ∷ 30 ∷ 31 ∷ []

unfoldable pub days_in_month : ℕ → ℕ → Option ℕ
unfolding month_entry
days_in_month year month =
    if nat_same month 2 && is_leap_year year then some 29 else month_entry days_in_month_table month

unfoldable pub is_within : ℕ → Option ℕ → Bool
is_within day none = false
is_within day (some days) = leb day days

unfoldable pub valid_date_parts : ℕ → ℕ → ℕ → Bool
unfolding days_in_month is_within
valid_date_parts year month day =
    not (nat_same year 0)
    && (leb 1 month && leb month 12)
    && (leb 1 day && is_within day (days_in_month year month))

unfoldable pub is_calendar_date : Text → Bool
unfolding match_date valid_date_parts
is_calendar_date value = elim (match_date value) [
  | none ↦ false
  | some parts ↦ valid_date_parts parts.year parts.month parts.day
]

unfoldable pub is_empty : Text → Bool
is_empty [] = true
is_empty (c ∷ cs) = false

unfoldable pub is_json_date_value : Text → Bool
is_json_date_value value = is_empty value || is_calendar_date value

-- The source counts from 0001-01-01 and gets -366 for the year 0; here 366 is added throughout, which
-- a difference of two days does not see.
unfoldable pub days_before_year : ℕ → ℕ
days_before_year zero = 0
days_before_year (suc previous_year) =
    366 + previous_year * 365 + previous_year / 4 + previous_year / 400 - previous_year / 100

-- `undefined + 1` is not a number.
unfoldable pub days_before_month : ℕ → ℕ → Option ℕ
unfolding month_entry
days_before_month year month = elim (month_entry days_before_month_table month) [
  | none ↦ none
  | some days ↦ some (if ltb 2 month && is_leap_year year then days + 1 else days)
]

-- The sum of `dateDay`, with 366 + 1 added; undefined where it is not a number.
unfoldable pub day_of_parts : ℕ → ℕ → ℕ → Option ℕ
unfolding days_before_year days_before_month
day_of_parts year month day = elim (days_before_month year month) [
  | none ↦ none
  | some days ↦ some (days_before_year year + days + day)
]

unfoldable pub date_day : Text → Option ℕ
unfolding match_date day_of_parts
date_day value = elim (match_date value) [
  | none ↦ none
  | some parts ↦ day_of_parts parts.year parts.month parts.day
]

-- `(left - right) % step === 0`; a remainder by 0 is not a number.
unfoldable pub is_multiple : ℕ → ℕ → ℕ → Bool
is_multiple left right zero = false
is_multiple left right (suc n) = nat_same ((left - right + (right - left)) % suc n) 0

days_aligned : Option ℕ → Option ℕ → ℕ → Bool
unfolding is_multiple
days_aligned (some left) (some right) by = is_multiple left right by
days_aligned _ _ by = false

abbrev pub step_base_date : Text
step_base_date = text "1970-01-01"

unfoldable pub is_date_step_aligned : Text → Text → ℕ → Bool
unfolding days_aligned
is_date_step_aligned value min by =
    days_aligned (date_day value) (date_day (if is_empty min then step_base_date else min)) by

unfoldable pub is_before_minimum : Text → Text → Bool
is_before_minimum value min = not (is_empty min) && not (text_leb min value)

unfoldable pub is_after_maximum : Text → Text → Bool
is_after_maximum value max = not (is_empty max) && not (text_leb value max)

unfoldable pub date_bound_issue : Text → Text → Text → Option JsonDateConstraintIssue
unfolding is_before_minimum is_after_maximum
date_bound_issue value min max =
    if is_before_minimum value min
    then some JsonDateConstraintIssue.minimum
    else if is_after_maximum value max
    then some JsonDateConstraintIssue.maximum
    else none

unfoldable pub date_value_issue : Text → Text → Text → ℕ → Option JsonDateConstraintIssue
unfolding date_bound_issue is_date_step_aligned
date_value_issue value min max by = elim (date_bound_issue value min max) [
  | some issue ↦ some issue
  | none ↦
      if not (is_date_step_aligned value min by) then some JsonDateConstraintIssue.step else none
]

unfoldable pub date_step_anchor_issue : Text → ℕ → Option JsonDateConstraintIssue
unfolding is_empty
date_step_anchor_issue min by =
    if ltb 1 by && is_empty min then some JsonDateConstraintIssue.step_anchor else none

unfoldable pub date_range_issue : Text → Text → Option JsonDateConstraintIssue
unfolding is_empty
date_range_issue min max =
    if is_empty min || is_empty max
    then none
    else if not (text_leb min max)
    then some JsonDateConstraintIssue.range
    else none

unfoldable pub date_structure_issue : Text → Text → ℕ → Option JsonDateConstraintIssue
unfolding date_range_issue date_step_anchor_issue
date_structure_issue min max by = elim (date_range_issue min max) [
  | some issue ↦ some issue
  | none ↦ date_step_anchor_issue min by
]

unfoldable pub json_date_constraint_issue : Text → Text → Text → ℕ → Option JsonDateConstraintIssue
unfolding date_structure_issue date_value_issue is_empty
json_date_constraint_issue value min max by = elim (date_structure_issue min max by) [
  | some issue ↦ some issue
  | none ↦ if is_empty value then none else date_value_issue value min max by
]
