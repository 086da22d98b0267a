-- ===== src/Input/Period.antt =====
-- get_period_input of client/input_util.c: the order of the two texts is the order of the dates,
-- and its simplified count of days against the calendar.
use school_meals.Base.{
  ℕ, zero, suc, ◌+◌, ◌-◌, ◌*◌, ◌≤◌, ◌<◌, ◌≡◌, sym, ◌∙◌, Bool, true, false, not, ◌&&◌, [], ◌∷◌,
  length, every, arith, if◌then◌else◌, ltb, leb, ◌==◌, ==_refl, &&-eq-true, subst, ◌⊎◌, inl, inr,
}
use school_meals.CString.{Bytes, isdigit, strcmp_gt}
use school_meals.Calendar.{Date}
use school_meals.Input.{validate_date_format, date_of, check_period, rough_days}
use school_meals.Input.Dates.{validate_date_format_iff}

-- The number that the digits make, each with its place.
abbrev place : ℕ → ℕ
place zero = 1
place (suc n) = 10 * place n

abbrev value : Bytes → ℕ
value [] = 0
value (c ∷ s) = (c - b'0') * place (length s) + value s

mul_gap : (c d p : ℕ) → c < d → c * p + p ≤ d * p
mul_gap zero zero p h = absurd (omega arith)
mul_gap zero (suc d) p h = omega arith
mul_gap (suc c) zero p h = absurd (omega arith)
mul_gap (suc c) (suc d) p h = omega (arith, mul_gap c d p (omega arith))

isdigit-lt : (c : ℕ) → isdigit c ≡ true → (b'0' ≤ c) × (c - b'0' < 10)
isdigit-lt c h = (ground arith, ground arith)

less_or_equal : (c d : ℕ) → (c < d) ⊎ ((c ≡ d) ⊎ (d < c))
less_or_equal c d = ground arith

value-bound : (s : Bytes) → every isdigit s ≡ true → value s < place (length s)
value-bound [] h = omega arith
value-bound (c ∷ s) h =
    let (hc, hs) = &&-eq-true (isdigit c) (every isdigit s) h in
    let digit_lt = isdigit-lt c hc in
    omega (arith, value-bound s hs, mul_gap (c - b'0') 10 (place (length s)) digit_lt.1)

first_digit :
    (c d va vb p : ℕ)
    → b'0' ≤ c
    → b'0' ≤ d
    → va < p
    → vb < p
    → (if c == d then ltb vb va else ltb d c) ≡ ltb ((d - b'0') * p + vb) ((c - b'0') * p + va)
first_digit c d va vb p hc hd ha hb = elim (less_or_equal c d) [
  | inl less ↦ ground (arith, mul_gap (c - b'0') (d - b'0') p (omega arith))
  | inr (inl same) ↦ rw (same, ==_refl d) (ground arith)
  | inr (inr more) ↦ ground (arith, mul_gap (d - b'0') (c - b'0') p (omega arith))
]

strcmp_gt-value :
    (a b : Bytes)
    → length a ≡ length b
    → every isdigit a ≡ true
    → every isdigit b ≡ true
    → strcmp_gt a b ≡ ltb (value b) (value a)
unfolding strcmp_gt
strcmp_gt-value [] [] h da db = ground arith
strcmp_gt-value [] (d ∷ b) h da db = absurd (omega arith)
strcmp_gt-value (c ∷ a) [] h da db = absurd (omega arith)
strcmp_gt-value (c ∷ a) (d ∷ b) h da db =
    let (hc, ha) = &&-eq-true (isdigit c) (every isdigit a) da in
    let (hd, hb) = &&-eq-true (isdigit d) (every isdigit b) db in
    let same : length a ≡ length b = omega arith in
    rw (strcmp_gt-value a b same ha hb, same)
      (first_digit c d (value a) (value b) (place (length b)) (isdigit-lt c hc).0
        (isdigit-lt d hd).0 (subst (λ n. value a < place n) same (value-bound a ha))
        (value-bound b hb))

value-date :
    (s : Bytes)
    → length s ≡ 8
    → value s ≡ (let t = date_of s in t.year * 10000 + t.month * 100 + t.day)
value-date (a ∷ b ∷ c ∷ d ∷ e ∷ f ∷ g ∷ h ∷ []) eight = omega arith
value-date s eight = absurd (omega arith)

-- Earlier in the calendar.
abbrev pub is_before : Date → Date → Bool
is_before t u =
    ltb (t.year * 10000 + t.month * 100 + t.day) (u.year * 10000 + u.month * 100 + u.day)

two_tests : (b : Bool) (x y : ℕ) → (if b then false else not (ltb x y)) ≡ (not b && leb y x)
two_tests b x y = ground arith

-- On two accepted dates, the period is accepted exactly if the end does not come before the start
-- in the calendar and the simplified counts differ by six days at most.
pub check_period-eq :
    (s e : Bytes)
    → validate_date_format s ≡ true
    → validate_date_format e ≡ true
    → check_period s e ≡ (
        not (is_before (date_of e) (date_of s))
        && leb (rough_days (date_of e)) (rough_days (date_of s) + 6))
unfolding check_period
check_period-eq s e hs he =
    let (ls, ds, _) = (validate_date_format_iff s).0 hs in
    let (le, de, _) = (validate_date_format_iff e).0 he in
    rw (hs, he, strcmp_gt-value s e (ls ∙ sym le) ds de, value-date s ls, value-date e le)
      (two_tests (is_before (date_of e) (date_of s)) (rough_days (date_of s) + 6)
        (rough_days (date_of e)))
