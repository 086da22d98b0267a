-- ===== src/Calendar.antt =====
-- The Gregorian calendar: the length of each month, and the number of a day.
use school_meals.Base.{
  ℕ, zero, suc, ◌+◌, ◌-◌, ◌*◌, ◌/◌, ◌%◌, Bool, not, ◌&&◌, ◌||◌, [], ◌∷◌, ◌==◌, if◌then◌else◌,
  get_or,
}

pub record Date : Type 0 where
  pub year : ℕ
  pub month : ℕ
  pub day : ℕ

abbrev pub is_leap : ℕ → Bool
is_leap y = (y % 4 == 0 && not (y % 100 == 0)) || y % 400 == 0

-- By month, from 1; there is no month 0 or 13.
abbrev pub days_in_month : ℕ → ℕ → ℕ
days_in_month y m =
    get_or
      (0
        ∷ 31
        ∷ (if is_leap y then 29 else 28)
        ∷ 31
        ∷ 30
        ∷ 31
        ∷ 30
        ∷ 31
        ∷ 31
        ∷ 30
        ∷ 31
        ∷ 30
        ∷ 31
        ∷ [])
      m 0

abbrev pub days_before : ℕ → ℕ → ℕ
days_before y zero = 0
days_before y (suc m) = days_before y m + days_in_month y m

-- Days from the first of January of the year 1, which is day 1.
abbrev pub day_number : Date → ℕ
day_number t =
    let y = t.year - 1 in y * 365 + y / 4 + y / 400 + days_before t.year t.month + t.day - y / 100
