-- ===== src/Neis/Period.antt =====
-- server/neis_api.c: the length of a period, and the text of the meals of a period.
pub mod Days
use school_meals.Base.{
  ℕ, zero, suc, ◌+◌, ◌-◌, ◌*◌, ◌/◌, ◌%◌, Bool, true, false, Option, none, some, [], ◌∷◌, ◌>>=◌, ltb,
  if◌then◌else◌,
}
use school_meals.CString.{Bytes, bytes, printed, snprintf, strcat, strncat_rest, isdigit}
use school_meals.Protocol.{max_meal_len, scan_digits}
use school_meals.Calendar.{Date, day_number}
use school_meals.Server.Request.{scan_upto}
use school_meals.Neis.Menu.{add_menu, formatted_date}
use school_meals.Neis.Web.{Web}

-- sscanf("%4d%2d%2d") into zeroed fields, on a text of digits
unfoldable pub scan_date : Bytes → Date
unfolding scan_upto scan_digits
scan_date date =
    let (year, rest) = scan_upto 4 isdigit date in
    let (month, rest') = scan_upto 2 isdigit rest in
    let (day, rest'') = scan_upto 2 isdigit rest' in
    record { year = scan_digits 0 year; month = scan_digits 0 month; day = scan_digits 0 day }

-- The day that mktime counts to. It carries a month out of range over into the year; the day is
-- only added. The time zone has one offset for all of the dates.
abbrev pub mktime : Date → ℕ
mktime t =
    let months = t.year * 12 + t.month + 11 in
    day_number (record { year = months / 12 - 1; month = months % 12 + 1; day = t.day })

unfoldable pub parse_date : Bytes → ℕ
unfolding scan_date
parse_date date_str = mktime (scan_date date_str)

-- days_between(start_date, end_date) > 7, an inequality of ints
unfoldable pub is_too_long : Bytes → Bytes → Bool
unfolding parse_date
is_too_long start_date end_date = ltb (parse_date start_date + 6) (parse_date end_date)

module _ (web : Web) where
  open web use {Json, get_ex, array_length, array_get_idx, get_string}

  -- A missing field is the empty string; a field that is NULL makes `none`, undefined behaviour.
  abbrev pub text_or_empty : Option Json → Option Bytes
  text_or_empty none = some []
  text_or_empty (some j) = get_string j

  -- One row: the entry of 512 bytes, appended to the buffer as far as it fits, and a line end
  unfoldable pub add_day : Json → Bytes → Option Bytes
  unfolding formatted_date add_menu
  add_day item buffer = do
    date ← text_or_empty (get_ex item "MLSV_YMD")
    menu ← text_or_empty (get_ex item "DDISH_NM")
    day ← formatted_date date
    entry ← add_menu 512 (snprintf 512 (printed (bytes "📅 " ∷ day ∷ bytes "\n" ∷ []))) menu
    strcat max_meal_len (strncat_rest max_meal_len buffer entry) (bytes "\n")

  -- The rows from `i` on, `left` of them
  unfoldable pub add_days : ℕ → ℕ → Json → Bytes → Option Bytes
  unfolding add_day
  add_days zero i row buffer = some buffer
  add_days (suc left) i row buffer = do
    buffer ← add_day (array_get_idx row i) buffer
    add_days left (suc i) row buffer

  unfoldable pub period_text : Json → Option Bytes
  unfolding add_days
  period_text row = add_days (array_length row) 0 row (bytes "\n🍱 기간별 급식 메뉴\n\n")
