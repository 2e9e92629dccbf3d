-- ===== src/Contracts/Date/Months.antt =====
-- The months of a year, of packages/contracts/src/date.ts: their days, and the days before them.
use unifold.Prelude.{
  ℕ, zero, suc, ◌+◌, ◌≤◌, ◌<◌, ◌≡◌, refl, inl, inr, true, some, arith, if◌then◌else◌, Bool-cases,
}
use unifold.Contracts.Date.{is_leap_year, month_entry, days_in_month, is_within, days_before_month}

-- One month is as long as its entry, the second one longer in a leap year.
pub month_step :
    (year month before days : ℕ)
    → month < 12
    → days_before_month year month ≡ some before
    → days_in_month year month ≡ some days
    → days_before_month year (suc month) ≡ some (before + days)
unfolding days_before_month days_in_month month_entry
month_step year zero before days h e f = cc
month_step year (suc zero) before days h e f = ground arith
month_step year (suc (suc zero)) before days h e f = ground arith
month_step year (suc (suc (suc zero))) before days h e f = ground arith
month_step year (suc (suc (suc (suc zero)))) before days h e f = ground arith
month_step year (suc (suc (suc (suc (suc zero))))) before days h e f = ground arith
month_step year (suc (suc (suc (suc (suc (suc zero)))))) before days h e f = ground arith
month_step year (suc (suc (suc (suc (suc (suc (suc zero))))))) before days h e f = ground arith
month_step year (suc (suc (suc (suc (suc (suc (suc (suc zero)))))))) before days h e f =
    ground arith
month_step year (suc (suc (suc (suc (suc (suc (suc (suc (suc zero))))))))) before days h e f =
    ground arith
month_step year (suc (suc (suc (suc (suc (suc (suc (suc (suc (suc zero)))))))))) before days h e f =
    ground arith
month_step year (suc (suc (suc (suc (suc (suc (suc (suc (suc (suc (suc zero))))))))))) before days h
      e f =
    ground arith
month_step year (suc (suc (suc (suc (suc (suc (suc (suc (suc (suc (suc (suc m)))))))))))) before
      days h e f =
    absurd (omega arith)

pub december :
    (year : ℕ) → days_before_month year 12 ≡ some (if is_leap_year year then 335 else 334)
unfolding days_before_month month_entry
december year = ground arith

pub january : (year : ℕ) → days_before_month year 1 ≡ some 0
unfolding days_before_month month_entry
january year = ground arith

-- Each month of a year has its days, and its days before it.
pub has_entries :
    (year month : ℕ)
    → 1 ≤ month
    → month ≤ 12
    → ((b : ℕ) × (days_before_month year month ≡ some b))
      × ((d : ℕ) × (days_in_month year month ≡ some d))
unfolding days_before_month days_in_month month_entry
has_entries year zero low high = absurd (omega arith)
has_entries year (suc zero) low high = ((0, refl), (31, refl))
has_entries year (suc (suc zero)) low high = (
  (31, refl),
  elim (Bool-cases (is_leap_year year)) [ inl t ↦ (29, rw t refl) | inr f ↦ (28, rw f refl) ],
)
has_entries year (suc (suc (suc zero))) low high = elim (Bool-cases (is_leap_year year)) [
  | inl t ↦ ((60, rw t refl), (31, refl))
  | inr f ↦ ((59, rw f refl), (31, refl))
]
has_entries year (suc (suc (suc (suc zero)))) low high = elim (Bool-cases (is_leap_year year)) [
  | inl t ↦ ((91, rw t refl), (30, refl))
  | inr f ↦ ((90, rw f refl), (30, refl))
]
has_entries year (suc (suc (suc (suc (suc zero))))) low high =
    elim (Bool-cases (is_leap_year year)) [
      | inl t ↦ ((121, rw t refl), (31, refl))
      | inr f ↦ ((120, rw f refl), (31, refl))
    ]
has_entries year (suc (suc (suc (suc (suc (suc zero)))))) low high =
    elim (Bool-cases (is_leap_year year)) [
      | inl t ↦ ((152, rw t refl), (30, refl))
      | inr f ↦ ((151, rw f refl), (30, refl))
    ]
has_entries year (suc (suc (suc (suc (suc (suc (suc zero))))))) low high =
    elim (Bool-cases (is_leap_year year)) [
      | inl t ↦ ((182, rw t refl), (31, refl))
      | inr f ↦ ((181, rw f refl), (31, refl))
    ]
has_entries year (suc (suc (suc (suc (suc (suc (suc (suc zero)))))))) low high =
    elim (Bool-cases (is_leap_year year)) [
      | inl t ↦ ((213, rw t refl), (31, refl))
      | inr f ↦ ((212, rw f refl), (31, refl))
    ]
has_entries year (suc (suc (suc (suc (suc (suc (suc (suc (suc zero))))))))) low high =
    elim (Bool-cases (is_leap_year year)) [
      | inl t ↦ ((244, rw t refl), (30, refl))
      | inr f ↦ ((243, rw f refl), (30, refl))
    ]
has_entries year (suc (suc (suc (suc (suc (suc (suc (suc (suc (suc zero)))))))))) low high =
    elim (Bool-cases (is_leap_year year)) [
      | inl t ↦ ((274, rw t refl), (31, refl))
      | inr f ↦ ((273, rw f refl), (31, refl))
    ]
has_entries year (suc (suc (suc (suc (suc (suc (suc (suc (suc (suc (suc zero))))))))))) low high =
    elim (Bool-cases (is_leap_year year)) [
      | inl t ↦ ((305, rw t refl), (30, refl))
      | inr f ↦ ((304, rw f refl), (30, refl))
    ]
has_entries year (suc (suc (suc (suc (suc (suc (suc (suc (suc (suc (suc (suc zero)))))))))))) low
      high =
    elim (Bool-cases (is_leap_year year)) [
      | inl t ↦ ((335, rw t refl), (31, refl))
      | inr f ↦ ((334, rw f refl), (31, refl))
    ]
has_entries year (suc (suc (suc (suc (suc (suc (suc (suc (suc (suc (suc (suc (suc m))))))))))))) low
      high =
    absurd (omega arith)

-- Every month has a first day.
pub first_within :
    (year month : ℕ) → 1 ≤ month → month ≤ 12 → is_within 1 (days_in_month year month) ≡ true
unfolding is_within days_in_month month_entry
first_within year zero low high = absurd (omega arith)
first_within year (suc zero) low high = ground arith
first_within year (suc (suc zero)) low high = ground arith
first_within year (suc (suc (suc zero))) low high = ground arith
first_within year (suc (suc (suc (suc zero)))) low high = ground arith
first_within year (suc (suc (suc (suc (suc zero))))) low high = ground arith
first_within year (suc (suc (suc (suc (suc (suc zero)))))) low high = ground arith
first_within year (suc (suc (suc (suc (suc (suc (suc zero))))))) low high = ground arith
first_within year (suc (suc (suc (suc (suc (suc (suc (suc zero)))))))) low high = ground arith
first_within year (suc (suc (suc (suc (suc (suc (suc (suc (suc zero))))))))) low high = ground arith
first_within year (suc (suc (suc (suc (suc (suc (suc (suc (suc (suc zero)))))))))) low high =
    ground arith
first_within year (suc (suc (suc (suc (suc (suc (suc (suc (suc (suc (suc zero))))))))))) low high =
    ground arith
first_within year (suc (suc (suc (suc (suc (suc (suc (suc (suc (suc (suc (suc zero)))))))))))) low
      high =
    ground arith
first_within year (suc (suc (suc (suc (suc (suc (suc (suc (suc (suc (suc (suc (suc m)))))))))))))
      low high =
    absurd (omega arith)
