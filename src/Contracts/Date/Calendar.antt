-- ===== src/Contracts/Date/Calendar.antt =====
-- Day numbers and the calendar, of packages/contracts/src/date.ts.
use unifold.Prelude.{
  ℕ, zero, suc, ◌+◌, ◌≤◌, ◌≡◌, refl, sym, ap, ◌∙◌, subst, inl, inr, true, false, Option, none, some,
  arith, ltb, if◌then◌else◌, ltb→lt, Bool-cases,
}
use unifold.Contracts.Date.{
  DateParts, is_leap_year, month_entry, days_in_month, is_within, valid_date_parts,
  days_before_year, days_before_month, day_of_parts,
}
use unifold.Contracts.Date.Months.{month_step, december, january, has_entries, first_within}

-- The day after a calendar date: the next day of the month, else the first of the next month, else
-- the first of January.
abbrev pub next_day : DateParts → DateParts
next_day p =
    if is_within (suc p.day) (days_in_month p.year p.month)
    then record p { day = suc p.day }
    else if ltb p.month 12
    then record { year = p.year; month = suc p.month; day = 1 }
    else record { year = suc p.year; month = 1; day = 1 }

-- One year is 365 days, or 366 if it is a leap year.
year_step :
    (year : ℕ)
    → days_before_year (suc (suc year))
      ≡ days_before_year (suc year) + (if is_leap_year (suc year) then 366 else 365)
unfolding days_before_year is_leap_year
year_step year = ground arith

month_12 : (month : ℕ) → 1 ≤ month → month ≤ 12 → ltb month 12 ≡ false → month ≡ 12
month_12 month low high h = ground arith

-- The parts of a calendar date.
pub record IsCalendar (p : DateParts) : Type 0 where
  pub after_zero : 1 ≤ p.year
  pub low : 1 ≤ p.month
  pub high : p.month ≤ 12
  pub first : 1 ≤ p.day
  pub within : is_within p.day (days_in_month p.year p.month) ≡ true

valid-IsCalendar : (p : DateParts) → valid_date_parts p.year p.month p.day ≡ true → IsCalendar p
unfolding valid_date_parts
valid-IsCalendar p h = record {
  after_zero = ground arith;
  low = ground arith;
  high = ground arith;
  first = ground arith;
  within = ground arith;
}

abbrev pub day_number : DateParts → Option ℕ
day_number p = day_of_parts p.year p.month p.day

day_number_lem :
    (p : DateParts) (before : ℕ)
    → days_before_month p.year p.month ≡ some before
    → day_number p ≡ some (days_before_year p.year + before + p.day)
unfolding day_of_parts
day_number_lem p before e = rw (e, day_of_parts) refl

last_of_december :
    (year day : ℕ)
    → is_within day (days_in_month year 12) ≡ true
    → is_within (suc day) (days_in_month year 12) ≡ false
    → day ≡ 31
unfolding is_within days_in_month month_entry
last_of_december year day h k = ground arith

last_of_month :
    (day days : ℕ) (o : Option ℕ)
    → o ≡ some days
    → is_within day o ≡ true
    → is_within (suc day) o ≡ false
    → day ≡ days
unfolding is_within
last_of_month day days none e h k = cc
last_of_month day days (some x) e h k = ground arith

new_year :
    (year before : ℕ)
    → 1 ≤ year
    → days_before_month year 12 ≡ some before
    → days_before_year (suc year) + 0 + 1 ≡ suc (days_before_year year + before + 31)
new_year zero before h e = absurd (omega arith)
new_year (suc y) before h e = ground (arith, year_step y, december (suc y))

next_in_month :
    (p : DateParts) (before : ℕ)
    → days_before_month p.year p.month ≡ some before
    → day_number (record p { day = suc p.day })
      ≡ some (suc (days_before_year p.year + before + p.day))
next_in_month p before e =
    day_number_lem (record p { day = suc p.day }) before e ∙ ap some (omega arith)

-- The next day of a calendar date is a calendar date's, and its number is one more.
next_lem :
    (p : DateParts)
    → IsCalendar p
    → (n : ℕ) × (day_number p ≡ some n) × (day_number (next_day p) ≡ some (suc n))
next_lem p v =
    let ((before, e), (days, f)) = has_entries p.year p.month v.low v.high in
    (
      days_before_year p.year + before + p.day,
      day_number_lem p before e,
      elim (Bool-cases (is_within (suc p.day) (days_in_month p.year p.month))) [
        | inl t ↦ rw t (next_in_month p before e)
        | inr g ↦
            let last = last_of_month p.day days _ f v.within g in
            elim (Bool-cases (ltb p.month 12)) [
              | inl t ↦
                  rw (g, t)
                    (day_number_lem (record { year = p.year; month = suc p.month; day = 1 })
                        (before + days) (month_step p.year p.month before days (ltb→lt _ _ t) e f)
                      ∙ ap some (omega arith))
              | inr h ↦
                  let twelfth = month_12 p.month v.low v.high h in
                  let final =
                    last_of_december p.year p.day
                      (subst (λ m. is_within p.day (days_in_month p.year m) ≡ true) twelfth
                        v.within)
                      (subst (λ m. is_within (suc p.day) (days_in_month p.year m) ≡ false) twelfth
                        g) in
                  rw (g, h)
                    (day_number_lem (record { year = suc p.year; month = 1; day = 1 }) 0
                        (january (suc p.year))
                      ∙ ap some (
                          new_year p.year before v.after_zero
                            (subst (λ m. days_before_month p.year m ≡ some before) twelfth e)
                          ∙ ap (λ (d : ℕ). suc (days_before_year p.year + before + d)) (sym final)))
            ]
      ],
    )

valid_lem :
    (year month day : ℕ)
    → 1 ≤ year
    → 1 ≤ month
    → month ≤ 12
    → 1 ≤ day
    → is_within day (days_in_month year month) ≡ true
    → valid_date_parts year month day ≡ true
unfolding valid_date_parts
valid_lem year month day a b c d e = rw e (ground arith)

abbrev IsDate : DateParts → Type 0
IsDate p = valid_date_parts p.year p.month p.day ≡ true

next_valid : (p : DateParts) → IsCalendar p → IsDate (next_day p)
next_valid p v = elim (Bool-cases (is_within (suc p.day) (days_in_month p.year p.month))) [
  | inl t ↦ rw t (valid_lem p.year p.month (suc p.day) v.after_zero v.low v.high (omega arith) t)
  | inr g ↦ elim (Bool-cases (ltb p.month 12)) [
    | inl t ↦
        let below = ltb→lt _ _ t in
        rw (g, t)
          (valid_lem p.year (suc p.month) 1 v.after_zero (omega arith) (omega arith) (omega arith)
            (first_within p.year (suc p.month) (omega arith) (omega arith)))
    | inr h ↦
        rw (g, h)
          (valid_lem (suc p.year) 1 1 (omega arith) (omega arith) (omega arith) (omega arith)
            (first_within (suc p.year) 1 (omega arith) (omega arith)))
  ]
]

-- A calendar date has a day number, and the date after it is a calendar date with the next one.
pub day_number-next_day :
    (p : DateParts)
    → valid_date_parts p.year p.month p.day ≡ true
    → let q = next_day p in
      (valid_date_parts q.year q.month q.day ≡ true)
      × ((n : ℕ) × (day_number p ≡ some n) × (day_number q ≡ some (suc n)))
day_number-next_day p h = let v = valid-IsCalendar p h in (next_valid p v, next_lem p v)
