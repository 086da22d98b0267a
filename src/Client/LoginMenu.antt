-- ===== src/Client/LoginMenu.antt =====
-- client/menu.c: the menu before the login. As in Client.Menu the choice has been read, and the input
-- is the lines that are typed after it; `answer` is what comes back for a request that is sent.
pub mod Returns
pub mod Accepted
use school_meals.Base.{
  ℕ, zero, suc, ◌+◌, Bool, true, false, Option, none, some, List, [], ◌∷◌, ◌>>=◌, ◌==◌,
  if◌then◌else◌, length,
}
use school_meals.CString.{Bytes}
use school_meals.Protocol.{max_id_len, max_pw_len, max_edu_office_len, max_school_name_len}
use school_meals.Protocol.Requests.{login_request, register_request}
use school_meals.Input.{is_valid_id, is_valid_password}
use school_meals.Input.Prompts.{Typed}
use school_meals.Client.Network.{Outcome}
use school_meals.Client.Handlers.{Session, is_valid_edu_office, handle_login, handle_register}
use school_meals.Client.Menu.{fgets, Turn}

abbrev pub checked : (Bytes → Bool) → (List Bytes → Typed Bytes) → Typed Bytes → Typed Bytes
checked accepted more none = none
checked accepted more (some (text, lines)) =
    let later = more lines in if accepted text then some (text, lines) else later

-- while (1) { fgets(…); if (accepted) break; }, for at most `fuel` rounds
unfoldable pub ask_rounds : (Bytes → Bool) → ℕ → ℕ → List Bytes → Typed Bytes
ask_rounds accepted size zero lines = none
ask_rounds accepted size (suc fuel) lines =
    checked accepted (ask_rounds accepted size fuel) (fgets size lines)

-- The bytes of the input, the ends of its lines included: no more calls of fgets than these get a text.
abbrev pub typed_bytes : List Bytes → ℕ
typed_bytes [] = 0
typed_bytes (line ∷ lines) = suc (length line) + typed_bytes lines

unfoldable pub ask_again : (Bytes → Bool) → ℕ → List Bytes → Typed Bytes
unfolding ask_rounds
ask_again accepted size lines = ask_rounds accepted size (typed_bytes lines) lines

-- The four texts of a registration
pub record Account : Type 0 where
  pub id : Bytes
  pub pw : Bytes
  pub edu_office : Bytes
  pub school_name : Bytes

abbrev pub last_prompts : Bytes → Bytes → List Bytes → Typed Account
last_prompts id pw lines = do
  (edu_office, lines) ← fgets max_edu_office_len lines
  (school_name, lines) ← fgets max_school_name_len lines
  some (record { id = id; pw = pw; edu_office = edu_office; school_name = school_name }, lines)

unfoldable pub register_prompts : List Bytes → Typed Account
unfolding ask_again is_valid_id is_valid_password
register_prompts lines = do
  (id, lines) ← ask_again is_valid_id max_id_len lines
  (pw, lines) ← ask_again is_valid_password max_pw_len lines
  last_prompts id pw lines

-- case 1: the two texts go to the server as they were typed.
abbrev pub login_choice : (Bytes → Outcome) → Session → List Bytes → Typed Turn
login_choice answer session lines = do
  (id, lines) ← fgets max_id_len lines
  (pw, lines) ← fgets max_pw_len lines
  let request = login_request id pw in
      let (ok, response, session') = handle_login session id (answer request) in
      some ((session', some request), lines)

-- case 2, after the prompts: nothing is sent for an office that is not known.
abbrev pub register_account : (Bytes → Outcome) → Session → Account × List Bytes → Typed Turn
register_account answer session (account, lines) =
    let request = register_request account.id account.pw account.edu_office account.school_name in
    do
      shown ← handle_register account.edu_office (answer request)
      some ((session, if is_valid_edu_office account.edu_office then some request else none), lines)

unfoldable pub handle_login_menu_input : (Bytes → Outcome) → Session → ℕ → List Bytes → Typed Turn
unfolding register_prompts login_request register_request handle_login handle_register
    is_valid_edu_office
handle_login_menu_input answer session choice lines =
    if choice == 1
    then login_choice answer session lines
    else if choice == 2
    then (register_prompts lines >>= register_account answer session)
    else some ((session, none), lines)
