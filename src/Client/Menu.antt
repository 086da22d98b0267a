-- ===== src/Client/Menu.antt =====
-- client/menu_general.c: what a choice of the general menu asks for, and the request that it sends.
-- The two numbers are those that scanf has read; the input is the lines that are typed after them.
pub mod Sends
pub mod Period
use school_meals.Base.{
  ℕ, ◌-◌, Bool, true, false, Option, none, some, List, [], ◌∷◌, ◌>>=◌, ltb, ◌==◌, if◌then◌else◌,
  length, take, drop,
}
use school_meals.CString.{Bytes}
use school_meals.Protocol.{max_edu_office_len, max_school_name_len}
use school_meals.Protocol.Requests.{
  meal_request, multi_meal_request, register_request, update_request, delete_request,
}
use school_meals.Input.Prompts.{
  Typed, get_id_input, get_password_input, get_edu_office_input, get_school_input, get_date_input,
  get_period_input,
}
use school_meals.Client.Handlers.{Session, handle_logout}

-- fgets into a buffer of `size` bytes, less the end of the line: what does not fit is left for the
-- next call.
abbrev pub fgets : ℕ → List Bytes → Typed Bytes
fgets size [] = none
fgets size (line ∷ lines) =
    if ltb (length line) (size - 1)
    then some (line, lines)
    else some (take (size - 1) line, drop (size - 1) line ∷ lines)

-- The eight calls of getchar and the rest of the line; a shorter line is refused.
abbrev pub eight_bytes : List Bytes → Typed (Option Bytes)
eight_bytes [] = none
eight_bytes (line ∷ lines) = some (if ltb (length line) 8 then none else some (take 8 line), lines)

-- The session afterwards, and the request that was sent, if one was
abbrev pub Turn : Type 0
Turn = Session × Option Bytes

abbrev pub dated : Session → (Bytes → Bytes) → Option Bytes × List Bytes → Typed Turn
dated session request (none, lines) = some ((session, none), lines)
dated session request (some date, lines) = some ((session, some (request date)), lines)

abbrev pub for_period :
    Session → (Bytes → Bytes → Bytes) → Option (Bytes × Bytes) × List Bytes → Typed Turn
for_period session request (none, lines) = some ((session, none), lines)
for_period session request (some (start_date, end_date), lines) =
    some ((session, some (request start_date end_date)), lines)

-- case 1: the user's own school
unfoldable pub own_school_menu : Session → ℕ → List Bytes → Typed Turn
unfolding meal_request multi_meal_request get_date_input get_period_input
own_school_menu session sub_choice lines =
    if sub_choice == 1
    then (get_date_input 9 lines
        >>= dated session
            (meal_request session.current_user_edu_office session.current_user_school))
    else if sub_choice == 2
    then (get_period_input 9 lines
        >>= for_period session
            (multi_meal_request session.current_user_edu_office session.current_user_school))
    else some ((session, none), lines)

-- case 2: another school; the single date is not checked
unfoldable pub other_school_menu : Session → ℕ → List Bytes → Typed Turn
unfolding meal_request multi_meal_request get_period_input
other_school_menu session sub_choice lines = do
  (edu_office, lines) ← fgets max_edu_office_len lines
  (school_name, lines) ← fgets max_school_name_len lines
  if sub_choice == 1
      then (eight_bytes lines >>= dated session (meal_request edu_office school_name))
      else if sub_choice == 2
      then (get_period_input 9 lines
          >>= for_period session (multi_meal_request edu_office school_name))
      else some ((session, none), lines)

-- The four prompts of an account, and the request for it
abbrev pub account_prompts :
    Session → (Bytes → Bytes → Bytes → Bytes → Bytes) → List Bytes → Typed Turn
account_prompts session request lines = do
  (id, lines) ← get_id_input lines
  (pw, lines) ← get_password_input lines
  (edu_office, lines) ← get_edu_office_input lines
  (school_name, lines) ← get_school_input lines
  some ((session, some (request id pw edu_office school_name)), lines)

-- case 3: the accounts
unfoldable pub user_menu : Session → ℕ → List Bytes → Typed Turn
unfolding get_id_input get_password_input get_edu_office_input get_school_input register_request
    update_request delete_request
user_menu session sub_choice lines =
    if sub_choice == 1
    then account_prompts session register_request lines
    else if sub_choice == 2
    then account_prompts session update_request lines
    else if sub_choice == 3
    then (do (id, lines) ← get_id_input lines; some ((session, some (delete_request id)), lines))
    else some ((session, none), lines)

unfoldable pub handle_general_menu : Session → ℕ → ℕ → List Bytes → Typed Turn
unfolding own_school_menu other_school_menu user_menu
handle_general_menu session choice sub_choice lines =
    if choice == 1
    then own_school_menu session sub_choice lines
    else if choice == 2
    then other_school_menu session sub_choice lines
    else if choice == 3
    then user_menu session sub_choice lines
    else if choice == 4
    then some ((handle_logout session, none), lines)
    else some ((session, none), lines)
