-- ===== src/Contracts/Date/Tests.antt =====
-- The end of February, and a weekly date field.
use unifold.Prelude.{true, ℕ, suc, ◌≡◌, refl, true, some}
use unifold.Contracts.Date.{
  DateParts, valid_date_parts, is_leap_year, days_in_month, is_within, month_entry,
}
use unifold.Contracts.Date.Calendar.{day_number, next_day, day_number-next_day}

abbrev leap_day : DateParts
leap_day = record { year = 2024; month = 2; day = 29 }

day_number-next_day_example :
    let q = next_day leap_day in
    (valid_date_parts q.year q.month q.day ≡ true)
    × ((n : ℕ) × (day_number leap_day ≡ some n) × (day_number q ≡ some (suc n)))
unfolding valid_date_parts is_leap_year days_in_month is_within month_entry
day_number-next_day_example = day_number-next_day leap_day refl
