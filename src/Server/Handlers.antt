-- ===== src/Server/Handlers.antt =====
-- server/server_handler.c, which is built into the server and called by nothing.
pub mod Statuses
pub mod Checks
use school_meals.Base.{
  ℕ, zero, suc, String, Bool, true, false, not, ◌||◌, Option, none, some, List, [], ◌∷◌, ◌++◌, ◌-◌,
  ◌>>=◌, ◌==◌, if◌then◌else◌, ltb, length, every, take,
}
use school_meals.CString.{Bytes, bytes, snprintf, strncpy, isdigit, isalnum}
use school_meals.Protocol.{resp_success, resp_error, max_id_len, max_pw_len, role_parent}
use school_meals.Db.{Engine, User, UserBuffer, verify_user, get_user, is_user_exists, add_user}
use school_meals.Neis.{MealService, Lookup, missing, codes, unterminated}
use school_meals.Server.Request.{Reply}

unfoldable pub is_valid_id : Bytes → Bool
is_valid_id id = if ltb (length id) 4 || ltb 16 (length id) then false else every isalnum id

-- The loop reads four bytes.
unfoldable pub is_valid_password : Bytes → Bool
is_valid_password pw = if not (length pw == 4) then false else every isdigit (take 4 pw)

-- A format, and the arguments that stand behind it
pub data Part : Type 0 where
  percent_s : Part
  literally : String → Part

pub data Argument : Type 0 where
  number : ℕ → Argument
  text : Bytes → Argument

-- sprintf: %s takes its argument for a pointer, so one that is missing or a number is undefined.
unfoldable pub sprintf : List Part → List Argument → Option Bytes
sprintf [] arguments = some []
sprintf (literally s ∷ parts) arguments = do rest ← sprintf parts arguments; some (bytes s ++ rest)
sprintf (percent_s ∷ parts) [] = none
sprintf (percent_s ∷ parts) (number n ∷ arguments) = none
sprintf (percent_s ∷ parts) (text s ∷ arguments) = do
  rest ← sprintf parts arguments
  some (s ++ rest)

abbrev resp_login_format : List Part
resp_login_format =
    percent_s
    ∷ literally "//LOGIN//"
    ∷ percent_s
    ∷ literally "//"
    ∷ percent_s
    ∷ literally "//"
    ∷ percent_s
    ∷ []

-- RESP_MEAL_FORMAT and the three formats beside it
abbrev meal_format : String → List Part
meal_format command = percent_s ∷ literally command ∷ percent_s ∷ []

abbrev pub response_size : ℕ
response_size = 2048

-- send of the response, whose own failure is only reported
abbrev pub sent : {Db : Type 0} → Db → Option Bytes → Reply Db
sent db response = do s ← response; some (db, s ∷ [])

-- sprintf(response, "%s//%s", status, message)
abbrev pub status_message : ℕ → String → Option Bytes
status_message status message =
    sprintf (percent_s ∷ literally "//" ∷ percent_s ∷ [])
      (number status ∷ text (bytes message) ∷ [])

abbrev pub cut_response : Option Bytes → Option Bytes
cut_response response = do s ← response; some (snprintf response_size s)

-- The User of a new parent. Its name is not written, and add_user does not read it.
abbrev pub parent_of : Bytes → Bytes → User
parent_of id pw = record {
  id = strncpy (max_id_len - 1) id;
  pw = strncpy (max_pw_len - 1) pw;
  name = [];
  role = bytes role_parent;
  edu_office = [];
  school_name = [];
}

module _ {Db : Type 0} where
  abbrev pub parent_added : Bool × Db → Reply Db
  parent_added (true, db) = sent db (status_message resp_success "REGISTER_PARENT")
  parent_added (false, db) = sent db (status_message resp_error "DB_ERROR")

  abbrev pub login_found : Db → Option UserBuffer → Reply Db
  login_found db none = sent db (status_message resp_error "DB_ERROR")
  login_found db (some user) = do
    edu_office ← user.edu_office
    school_name ← user.school_name
    role ← user.role
    sent db (
        cut_response (
          sprintf resp_login_format
            (number resp_success ∷ text edu_office ∷ text school_name ∷ text role ∷ [])))

  -- The answer to a query: the command and the text, or the message of an error
  abbrev pub menu_found : Db → String → String → Option Bytes → Reply Db
  menu_found db command message none = sent db (status_message resp_error message)
  menu_found db command message (some meal) =
      sent db (cut_response (sprintf (meal_format command) (number resp_success ∷ text meal ∷ [])))

module _ {Db : Type 0} (net : MealService) where
  open net use {resolve_school_code, get_meal_from_neis, get_meals_period_from_neis}

  unfoldable pub handle_meal : Db → Bytes → Bytes → Bytes → Reply Db
  handle_meal db edu_office school_name date = do
    meal ← get_meal_from_neis edu_office school_name date
    menu_found db "//MEAL//" "급식 정보를 찾을 수 없습니다" meal

  unfoldable pub handle_multi_meal : Db → Bytes → Bytes → Bytes → Bytes → Reply Db
  handle_multi_meal db edu_office school_name start_date end_date = do
    meals ← get_meals_period_from_neis edu_office school_name start_date end_date
    menu_found db "//MULTI_MEAL//" "조회 기간은 최대 7일까지입니다" meals

  -- The office is not read: the codes come from the school alone.
  abbrev pub other_meal_with : Db → Bytes → Lookup → Reply Db
  other_meal_with db date missing = sent db (status_message resp_error "학교 정보를 찾을 수 없습니다.")
  other_meal_with db date (codes edu_code school_code) = do
    meal ← get_meal_from_neis edu_code school_code date
    menu_found db "//OTHER_MEAL//" "급식 정보를 찾을 수 없습니다" meal
  other_meal_with db date unterminated = none

  unfoldable pub handle_other_meal : Db → Bytes → Bytes → Bytes → Reply Db
  handle_other_meal db edu_office school_name date =
      other_meal_with db date (resolve_school_code school_name)

  abbrev pub multi_other_meal_with : Db → Bytes → Bytes → Lookup → Reply Db
  multi_other_meal_with db start_date end_date missing =
      sent db (status_message resp_error "학교 정보를 찾을 수 없습니다.")
  multi_other_meal_with db start_date end_date (codes edu_code school_code) = do
    meals ← get_meals_period_from_neis edu_code school_code start_date end_date
    menu_found db "//MULTI_OTHER_MEAL//" "조회 기간은 최대 7일까지입니다" meals
  multi_other_meal_with db start_date end_date unterminated = none

  unfoldable pub handle_multi_other_meal : Db → Bytes → Bytes → Bytes → Bytes → Reply Db
  handle_multi_other_meal db edu_office school_name start_date end_date =
      multi_other_meal_with db start_date end_date (resolve_school_code school_name)

unfoldable pub handle_quit : {Db : Type 0} → Db → Reply Db
handle_quit db = sent db (status_message resp_success "QUIT")

module _ (e : Engine) where
  open e use {Db}

  unfoldable pub handle_register_parent : Db → Bytes → Bytes → Reply Db
  handle_register_parent db id pw =
      if not (is_valid_id id)
      then sent db (status_message resp_error "유효하지 않은 아이디입니다.")
      else if not (is_valid_password pw)
      then sent db (status_message resp_error "비밀번호는 숫자 4자리여야 합니다.")
      else if is_user_exists e db id
      then sent db (status_message resp_error "중복된 아이디")
      else parent_added (add_user e db (parent_of id pw))

  unfoldable pub handle_login : Db → Bytes → Bytes → Reply Db
  handle_login db id pw =
      if verify_user e db id pw
      then (do user ← get_user e false db id; login_found db user)
      else sent db (status_message resp_error "로그인 실패")
