-- ===== src/Contracts/Date/Constraints.antt =====
-- The constraints of a date field, of packages/contracts/src/date.ts.
use unifold.Prelude.{◌+◌, ◌*◌, ◌<◌, text, ℕ, ◌≤◌, ◌≡◌, ◌≢◌, ◌⊎◌, true, some, [], Text, text_leb}
use unifold.Contracts.Date.{date_day}

-- The day that steps are counted from: the minimum, or the first of January 1970 without one.
abbrev pub IsBase : Text → Text → Type 0
IsBase min base = ((min ≡ []) × (base ≡ text "1970-01-01")) ⊎ ((min ≢ []) × (base ≡ min))

-- The value is a date that is a whole number of steps before or after the base.
abbrev pub IsStep : Text → Text → ℕ → Type 0
IsStep value min by =
    (base : Text) × IsBase min base
    × (day : ℕ) × (date_day value ≡ some day)
    × (from : ℕ) × (date_day base ≡ some from)
    × (0 < by)
    × (steps : ℕ) × ((day ≡ from + steps * by) ⊎ (from ≡ day + steps * by))

-- The value is between the bounds that are given, and a whole number of steps from the base.
pub record Fits (value min max : Text) (by : ℕ) : Type 0 where
  pub from_min : (min ≡ []) ⊎ (text_leb min value ≡ true)
  pub to_max : (max ≡ []) ⊎ (text_leb value max ≡ true)
  pub aligned : IsStep value min by

-- The bounds that are given are in order, a step of several days has a first day to count from, and a
-- value that is given fits.
pub record IsAllowed (value min max : Text) (by : ℕ) : Type 0 where
  pub in_order : (min ≡ []) ⊎ (max ≡ []) ⊎ (text_leb min max ≡ true)
  pub anchored : (by ≤ 1) ⊎ (min ≢ [])
  pub fits : (value ≡ []) ⊎ Fits value min max by

-- The two days are a whole number of steps apart.
abbrev IsApart : ℕ → ℕ → ℕ → Type 0
IsApart day from by =
    (0 < by) × (steps : ℕ) × ((day ≡ from + steps * by) ⊎ (from ≡ day + steps * by))
