-- ===== src/Input/Limits.antt =====
-- The limit of seven days: the simplified count of get_period_input against the count of days of
-- server/neis_api.c, on dates that get_period_input accepts.
use school_meals.Base.{
  ℕ, zero, suc, ◌+◌, ◌-◌, ◌/◌, if◌then◌else◌, ◌≤◌, ◌≡◌, refl, Bool-cases, inl, inr, sym, ap, ◌∙◌,
  Bool, true, false, not, ◌&&◌, arith, ltb, leb,
}
use school_meals.CString.{Bytes}
use school_meals.Calendar.{Date, is_leap, days_in_month, day_number}
use school_meals.Input.{validate_date_format, date_of, check_period, rough_days}
use school_meals.Input.Dates.{validate_date_format_iff}
use school_meals.Input.Period.{check_period-eq, is_before}
use school_meals.Neis.Period.{is_too_long, parse_date}
use school_meals.Neis.Period.Days.{parse_date-eq, same_date}

-- A day of a month exists only in one of the twelve months.
month_range : (y m d : ℕ) → 1 ≤ d → d ≤ days_in_month y m → (1 ≤ m) × (m ≤ 12)
month_range y zero d lo hi = absurd (omega arith)
month_range y (suc (suc (suc (suc (suc (suc (suc (suc (suc (suc (suc (suc (suc m))))))))))))) d lo
      hi =
    absurd (omega arith)
month_range y m d lo hi = (omega arith, omega arith)

parse_date_lem : (s : Bytes) → validate_date_format s ≡ true → parse_date s ≡ day_number (date_of s)
parse_date_lem s h =
    let (l, ds, (_, lo, hi)) = (validate_date_format_iff s).0 h in
    let (m1, m12) = month_range (date_of s).year (date_of s).month (date_of s).day lo hi in
    parse_date-eq s l ds m1 m12

-- The server's test on two accepted dates is that on the numbers of the days.
pub is_too_long-eq :
    (s e : Bytes)
    → validate_date_format s ≡ true
    → validate_date_format e ≡ true
    → is_too_long s e ≡ ltb (day_number (date_of s) + 6) (day_number (date_of e))
unfolding is_too_long
is_too_long-eq s e hs he = rw (parse_date_lem s hs, parse_date_lem e he)

abbrev day_of : ℕ → ℕ → ℕ → ℕ
day_of y m d = day_number (record { year = y; month = m; day = d })

day_of-same : (y m d d' : ℕ) → day_of y m d' + d ≡ day_of y m d + d'
day_of-same y m d d' = omega arith

module _ (t u : Date) where
  same_month-day_number :
      u.year ≡ t.year → u.month ≡ t.month → day_number u + t.day ≡ day_number t + u.day
  same_month-day_number hy hm =
      ap (λ v. day_number v + t.day)
        (same_date u (record { year = t.year; month = t.month; day = u.day }) hy hm refl)
      ∙ day_of-same t.year t.month t.day u.day

abbrev accepts : Date → Date → Bool
accepts t u = not (is_before u t) && leb (rough_days u) (rough_days t + 6)

module _ (t u : Date) where
  accepts_same_month :
      u.year ≡ t.year → u.month ≡ t.month → accepts t u ≡ (leb t.day u.day && leb u.day (t.day + 6))
  accepts_same_month hy hm = ground arith

  refuses_new_year :
      u.year ≡ suc t.year
      → t.month ≡ 12
      → u.month ≡ 1
      → t.day + 3 ≤ u.day + 31
      → accepts t u ≡ false
  refuses_new_year hy hm hm' four = ground arith

leap_step :
    (y : ℕ)
    → suc y / 4 + suc y / 400 + y / 100
      ≡ y / 4 + y / 400 + suc y / 100 + (if is_leap (suc y) then 1 else 0)
leap_step y = ground arith

february : (y : ℕ) → days_in_month y 2 ≡ 28 + (if is_leap y then 1 else 0)
february y = elim (Bool-cases (is_leap y)) [ inl h ↦ rw h | inr h ↦ rw h ]

day_of-new_year : (y d d' : ℕ) → day_of (suc (suc y)) 1 d' + d ≡ day_of (suc y) 12 d + 31 + d'
day_of-new_year y d d' = omega (arith, leap_step y, february (suc y))

new_year_days :
    (t u : Date)
    → 1900 ≤ t.year
    → u.year ≡ suc t.year
    → t.month ≡ 12
    → u.month ≡ 1
    → day_number u + t.day ≡ day_number t + 31 + u.day
new_year_days t u late hy hm hm' =
    let y = t.year - 1 in
    let first : u ≡ record { year = suc (suc y); month = 1; day = u.day } =
      same_date u _ (omega arith) hm' refl in
    let last : t ≡ record { year = suc y; month = 12; day = t.day } =
      same_date t _ (omega arith) hm refl in
    ap (λ v. day_number v + t.day) first
    ∙ day_of-new_year y t.day u.day
    ∙ ap (λ v. day_number v + 31 + u.day) (sym last)

module _ (s e : Bytes) (hs : validate_date_format s ≡ true)
    (he : validate_date_format e ≡ true) where
  within :
      day_number (date_of e) + (date_of s).day ≡ day_number (date_of s) + (date_of e).day
      → (leb (date_of s).day (date_of e).day && leb (date_of e).day ((date_of s).day + 6)) ≡ true
      → ltb (day_number (date_of s) + 6) (day_number (date_of e)) ≡ false
  within days h = ground arith

  -- Two accepted dates within one month are accepted as a period exactly if the end comes at most six
  -- days after the start and not before it, and what is accepted is within the server's limit.
  pub check_period_same_month :
      (date_of e).year ≡ (date_of s).year
      → (date_of e).month ≡ (date_of s).month
      → (check_period s e
          ≡ (leb (date_of s).day (date_of e).day && leb (date_of e).day ((date_of s).day + 6)))
        × (check_period s e ≡ true → is_too_long s e ≡ false)
  check_period_same_month hy hm = (
    check_period-eq s e hs he ∙ accepts_same_month (date_of s) (date_of e) hy hm,
    λ h.
        is_too_long-eq s e hs he
        ∙ within (same_month-day_number (date_of s) (date_of e) hy hm) (
            sym (check_period-eq s e hs he ∙ accepts_same_month (date_of s) (date_of e) hy hm) ∙ h),
  )

  new_year-day_number :
      (date_of e).year ≡ suc (date_of s).year
      → (date_of s).month ≡ 12
      → (date_of e).month ≡ 1
      → day_number (date_of e) + (date_of s).day ≡ day_number (date_of s) + 31 + (date_of e).day
  new_year-day_number hy hm hm' =
      new_year_days (date_of s) (date_of e) ((validate_date_format_iff s).0 hs).2.0 hy hm hm'

  in_week :
      day_number (date_of e) + (date_of s).day ≡ day_number (date_of s) + 31 + (date_of e).day
      → (date_of e).day + 31 ≤ (date_of s).day + 6
      → ltb (day_number (date_of s) + 6) (day_number (date_of e)) ≡ false
  in_week days week = ground arith

  -- Two accepted dates across New Year, three to six days apart, are refused as a period, which is
  -- within the server's limit.
  pub check_period_new_year :
      (date_of e).year ≡ suc (date_of s).year
      → (date_of s).month ≡ 12
      → (date_of e).month ≡ 1
      → (date_of s).day + 3 ≤ (date_of e).day + 31
      → (date_of e).day + 31 ≤ (date_of s).day + 6
      → (check_period s e ≡ false) × (is_too_long s e ≡ false)
  check_period_new_year hy hm hm' four week = (
    check_period-eq s e hs he ∙ refuses_new_year (date_of s) (date_of e) hy hm hm' four,
    is_too_long-eq s e hs he ∙ in_week (new_year-day_number hy hm hm') week,
  )
