-- ===== src/Input.antt =====
-- client/input_util.c: the checks of what the user types.
pub mod Dates
pub mod Period
pub mod Limits
pub mod Prompts
pub mod Accepted
use school_meals.Base.{
  ℕ, zero, suc, ◌+◌, ◌-◌, ◌*◌, ◌%◌, String, Bool, true, false, not, ◌&&◌, ◌||◌, Option, none, some,
  List, [], ◌∷◌, ltb, leb, ◌==◌, if◌then◌else◌, length, every, get_or,
}
use school_meals.CString.{Bytes, bytes, bytes_eq, strcmp_gt, isdigit, isalnum}
use school_meals.Calendar.{Date}

unfoldable pub is_valid_id : Bytes → Bool
is_valid_id id = if ltb (length id) 4 || ltb 16 (length id) then false else every isalnum id

unfoldable pub is_valid_password : Bytes → Bool
is_valid_password pw = if not (length pw == 4) then false else every isdigit pw

abbrev pub digit : Bytes → ℕ → ℕ
digit date i = get_or date i 0 - b'0'

-- The three numbers of YYYYMMDD.
abbrev pub date_of : Bytes → Date
date_of s = record {
  year = digit s 0 * 1000 + digit s 1 * 100 + digit s 2 * 10 + digit s 3;
  month = digit s 4 * 10 + digit s 5;
  day = digit s 6 * 10 + digit s 7;
}

-- The tests of validate_date_format on the numbers, in their order.
unfoldable pub check_date : ℕ → ℕ → ℕ → Bool
check_date year month day =
    let leap = (year % 4 == 0 && not (year % 100 == 0)) || year % 400 == 0 in
    if ltb year 1900
    then false
    else if ltb month 1 || ltb 12 month
    then false
    else if ltb day 1 || ltb 31 day
    then false
    else if month == 2 && leap && ltb 29 day
    then false
    else if month == 2 && not leap && ltb 28 day
    then false
    else if (month == 4 || month == 6 || month == 9 || month == 11) && ltb 30 day
    then false
    else true

unfoldable pub validate_date_format : Bytes → Bool
validate_date_format date =
    if not (length date == 8)
    then false
    else if not (every isdigit date)
    then false
    else (let t = date_of date in check_date t.year t.month t.day)

-- The simplified day count of get_period_input.
abbrev pub rough_days : Date → ℕ
rough_days t = t.year * 365 + t.month * 30 + t.day

-- The decision of get_period_input on the two texts; days2 - days1 is compared as ints.
unfoldable pub check_period : Bytes → Bytes → Bool
unfolding validate_date_format strcmp_gt
check_period start_date end_date =
    if not (validate_date_format start_date)
    then false
    else if not (validate_date_format end_date)
    then false
    else if strcmp_gt start_date end_date
    then false
    else not (ltb (rough_days (date_of start_date) + 6) (rough_days (date_of end_date)))

pub record EduOffice : Type 0 where
  pub name : String
  pub code : String

abbrev pub edu_office_map : List EduOffice
edu_office_map =
    record { name = "서울특별시교육청"; code = "B10" }
    ∷ record { name = "부산광역시교육청"; code = "C10" }
    ∷ record { name = "대구광역시교육청"; code = "D10" }
    ∷ record { name = "인천광역시교육청"; code = "E10" }
    ∷ record { name = "광주광역시교육청"; code = "F10" }
    ∷ record { name = "대전광역시교육청"; code = "G10" }
    ∷ record { name = "울산광역시교육청"; code = "H10" }
    ∷ record { name = "세종특별자치시교육청"; code = "I10" }
    ∷ record { name = "경기도교육청"; code = "J10" }
    ∷ record { name = "강원도교육청"; code = "K10" }
    ∷ record { name = "충청북도교육청"; code = "M10" }
    ∷ record { name = "충청남도교육청"; code = "N10" }
    ∷ record { name = "전라북도교육청"; code = "P10" }
    ∷ record { name = "전라남도교육청"; code = "Q10" }
    ∷ record { name = "경상북도교육청"; code = "R10" }
    ∷ record { name = "경상남도교육청"; code = "S10" }
    ∷ record { name = "제주특별자치도교육청"; code = "T10" }
    ∷ []

abbrev pub code_in : List EduOffice → Bytes → Option Bytes
code_in [] name = none
code_in (o ∷ rest) name =
    if bytes_eq (bytes o.name) name then some (bytes o.code) else code_in rest name

unfoldable pub get_edu_office_code : Bytes → Option Bytes
get_edu_office_code name = code_in edu_office_map name
