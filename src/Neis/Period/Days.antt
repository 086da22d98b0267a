-- ===== src/Neis/Period/Days.antt =====
-- parse_date of server/neis_api.c on the dates of the calendar.
use school_meals.Base.{
  ℕ, ◌+◌, ◌-◌, ◌*◌, ◌/◌, ◌%◌, ◌≤◌, ◌≡◌, refl, ap, ◌∙◌, true, [], ◌∷◌, length, every, arith,
  &&-eq-true,
}
use school_meals.CString.{Bytes, isdigit}
use school_meals.Protocol.{scan_digits}
use school_meals.Calendar.{Date, day_number}
use school_meals.Input.{date_of}
use school_meals.Server.Request.{scan_upto}
use school_meals.Neis.Period.{scan_date, mktime, parse_date}

pub same_date : (t u : Date) → t.year ≡ u.year → t.month ≡ u.month → t.day ≡ u.day → t ≡ u
same_date t u hy hm hd = cc

-- mktime carries nothing over from one of the twelve months.
carries_nothing :
    (y m : ℕ) → 1 ≤ m → m ≤ 12 → ((y * 12 + m + 11) / 12 - 1 ≡ y) × ((y * 12 + m + 11) % 12 + 1 ≡ m)
carries_nothing y m lo hi = (omega arith, omega arith)

mktime-eq : (t : Date) → 1 ≤ t.month → t.month ≤ 12 → mktime t ≡ day_number t
mktime-eq t lo hi =
    let (year, month) = carries_nothing t.year t.month lo hi in
    ap day_number (same_date _ t year month refl)

scan_date-digits : (s : Bytes) → length s ≡ 8 → every isdigit s ≡ true → scan_date s ≡ date_of s
unfolding scan_date scan_upto scan_digits
scan_date-digits (a ∷ b ∷ c ∷ d ∷ e ∷ f ∷ g ∷ h ∷ []) eight digits =
    let (ha, r) = &&-eq-true (isdigit a) _ digits in
    let (hb, r) = &&-eq-true (isdigit b) _ r in
    let (hc, r) = &&-eq-true (isdigit c) _ r in
    let (hd, r) = &&-eq-true (isdigit d) _ r in
    let (he, r) = &&-eq-true (isdigit e) _ r in
    let (hf, r) = &&-eq-true (isdigit f) _ r in
    let (hg, r) = &&-eq-true (isdigit g) _ r in
    let (hh, r) = &&-eq-true (isdigit h) _ r in
    same_date _ _ (rw (ha, hb, hc, hd) (rw (ha, hb, hc, hd) (omega arith)))
      (rw (ha, hb, hc, hd) (rw (he, hf) (rw (he, hf) (omega arith))))
      (rw (ha, hb, hc, hd) (rw (he, hf) (rw (hg, hh) (rw (hg, hh) (omega arith)))))
scan_date-digits s eight digits = absurd (omega arith)

-- On eight digits whose month is one of the twelve, parse_date is the number of the day.
pub parse_date-eq :
    (s : Bytes)
    → length s ≡ 8
    → every isdigit s ≡ true
    → 1 ≤ (date_of s).month
    → (date_of s).month ≤ 12
    → parse_date s ≡ day_number (date_of s)
unfolding parse_date
parse_date-eq s eight digits lo hi =
    ap mktime (scan_date-digits s eight digits) ∙ mktime-eq (date_of s) lo hi
