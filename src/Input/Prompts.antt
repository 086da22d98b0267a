-- ===== src/Input/Prompts.antt =====
-- client/input_util.c: the loops that ask until the answer is accepted. The input is the list of
-- the lines that are typed; `none` is a call that has not returned when they are used up.
use school_meals.Base.{
  ℕ, ◌-◌, Bool, true, false, ◌&&◌, Option, none, some, List, [], ◌∷◌, if◌then◌else◌, take, leb,
  length,
}
use school_meals.CString.{Bytes}
use school_meals.Protocol.{
  ℤ, pos, negsuc, atoi, max_id_len, max_pw_len, max_edu_office_len, max_school_name_len,
}
use school_meals.Input.{
  is_valid_id, is_valid_password, get_edu_office_code, validate_date_format, check_period,
}

-- A line of the input into a buffer of `size` bytes; what does not fit is read and dropped.
abbrev pub safe_input : ℕ → Bytes → Bytes
safe_input size line = take (size - 1) line

abbrev pub Typed : Type 0 → Type 0
Typed A = Option (A × List Bytes)

-- while (1) { safe_input(…); if (accepted) break; }
unfoldable pub ask : (Bytes → Bool) → ℕ → List Bytes → Typed Bytes
ask accepted size [] = none
ask accepted size (line ∷ lines) =
    let more = ask accepted size lines in
    let text = safe_input size line in if accepted text then some (text, lines) else more

abbrev pub is_office : Bytes → Bool
is_office name = elim (get_edu_office_code name) [ none ↦ false | some code ↦ true ]

unfoldable pub get_id_input : List Bytes → Typed Bytes
unfolding ask is_valid_id
get_id_input = ask is_valid_id max_id_len

unfoldable pub get_password_input : List Bytes → Typed Bytes
unfolding ask is_valid_password
get_password_input = ask is_valid_password max_pw_len

unfoldable pub get_edu_office_input : List Bytes → Typed Bytes
unfolding ask get_edu_office_code
get_edu_office_input = ask is_office max_edu_office_len

unfoldable pub get_school_input : List Bytes → Typed Bytes
unfolding ask
get_school_input = ask (λ school. leb 2 (length school)) max_school_name_len

-- choice >= min && choice <= max, for bounds that are not negative
abbrev in_range : ℤ → ℕ → ℕ → Option ℕ
in_range (pos n) min max = if leb min n && leb n max then some n else none
in_range (negsuc n) min max = none

unfoldable pub get_menu_choice : ℕ → ℕ → List Bytes → Typed ℕ
unfolding atoi
get_menu_choice min max [] = none
get_menu_choice min max (line ∷ lines) =
    let more = get_menu_choice min max lines in
    elim (in_range (atoi (safe_input 10 line)) min max) [ none ↦ more | some n ↦ some (n, lines) ]

-- The value 0 is the inner none. The menus pass buffers of nine bytes.
unfoldable pub get_date_input : ℕ → List Bytes → Typed (Option Bytes)
unfolding validate_date_format
get_date_input size [] = none
get_date_input size (line ∷ lines) =
    let date = safe_input size line in
    some (if validate_date_format date then some date else none, lines)

abbrev pub period_of : Bytes → ℕ → List Bytes → Typed (Option (Bytes × Bytes))
period_of start_date size [] = none
period_of start_date size (line ∷ lines) =
    let end_date = safe_input size line in
    some (if check_period start_date end_date then some (start_date, end_date) else none, lines)

-- The second date is not asked for where the first is refused.
unfoldable pub get_period_input : ℕ → List Bytes → Typed (Option (Bytes × Bytes))
unfolding validate_date_format check_period
get_period_input size [] = none
get_period_input size (line ∷ lines) =
    let start_date = safe_input size line in
    if validate_date_format start_date then period_of start_date size lines else some (none, lines)
