-- ===== src/Input/Dates.antt =====
-- validate_date_format accepts exactly the dates of the calendar from 1900 on.
use school_meals.Base.{
  ℕ, zero, suc, ◌≤◌, ◌≡◌, ◌↔◌, Bool, true, ◌&&◌, leb, ◌==◌, length, every, arith, ==_iff, sym, ◌∙◌,
}
use school_meals.CString.{Bytes, isdigit}
use school_meals.Calendar.{Date, days_in_month}
use school_meals.Input.{check_date, validate_date_format, date_of}

check_date_lem :
    (y m d : ℕ) → check_date y m d ≡ (leb 1900 y && (leb 1 d && leb d (days_in_month y m)))
unfolding check_date
check_date_lem y (suc (suc (suc (suc (suc (suc (suc (suc (suc (suc (suc (suc zero)))))))))))) d =
    ground arith
check_date_lem y m d = ground arith

-- What the comment above the function promises: YYYYMMDD, from 1900 on, and a day that exists.
abbrev pub IsCalendarDate : Date → Type 0
IsCalendarDate t = (1900 ≤ t.year) × (1 ≤ t.day) × (t.day ≤ days_in_month t.year t.month)

check_date_iff : (t : Date) → (check_date t.year t.month t.day ≡ true) ↔ IsCalendarDate t
check_date_iff t = (
  λ h. ground (arith, check_date_lem t.year t.month t.day),
  λ h. ground (arith, check_date_lem t.year t.month t.day),
)

validate_date_format-eq :
    (s : Bytes)
    → validate_date_format s
      ≡ (length s == 8 && every isdigit s && (let t = date_of s in check_date t.year t.month t.day))
unfolding validate_date_format
validate_date_format-eq s = ground arith

and3_iff : (a b c : Bool) → ((a && b && c) ≡ true) ↔ ((a ≡ true) × (b ≡ true) × (c ≡ true))
and3_iff a b c = ground arith

-- The text is accepted exactly if it is eight digits that name a day of the calendar from 1900 on.
pub validate_date_format_iff :
    (s : Bytes)
    → (validate_date_format s ≡ true)
      ↔ ((length s ≡ 8) × (every isdigit s ≡ true) × IsCalendarDate (date_of s))
validate_date_format_iff s =
    let (split, join) =
      and3_iff (length s == 8) (every isdigit s)
        (let t = date_of s in check_date t.year t.month t.day) in
    let (is_eight, eight) = ==_iff (length s) 8 in
    let (is_date, date) = check_date_iff (date_of s) in
    let same = validate_date_format-eq s in
    (
      λ h. let (h1, h2, h3) = split (sym same ∙ h) in (is_eight h1, h2, is_date h3),
      λ (h1, h2, h3). same ∙ join (eight h1, h2, date h3),
    )
