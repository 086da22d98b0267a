-- ===== src/Server/Account.antt =====
-- The account commands of handle_client, and handle_register_general.
use school_meals.Base.{Bool, true, false, Option, none, some, [], ◌∷◌, ◌-◌, ◌>>=◌, if◌then◌else◌}
use school_meals.CString.{Bytes, bytes, printed, snprintf, strncpy}
use school_meals.Protocol.{
  resp_success, resp_error, cmd_delimiter, max_id_len, max_pw_len, max_name_len, max_role_len,
  max_edu_office_len, max_school_name_len, role_general,
}
use school_meals.Db.{
  Engine, User, UserBuffer, verify_user, get_user, is_user_exists, add_user, update_user,
  delete_user,
}
use school_meals.Neis.{MealService, Lookup, missing, codes, unterminated}
use school_meals.Server.Request.{Params, Reply, say, need, report}

-- The user data of a login: three strings of a struct that was not zeroed.
abbrev pub login_text : UserBuffer → Option Bytes
login_text user = do
  edu_office ← user.edu_office
  school_name ← user.school_name
  role ← user.role
  some (
      snprintf 256 (printed (edu_office ∷ cmd_delimiter ∷ school_name ∷ cmd_delimiter ∷ role ∷ [])))

-- strncpy into the zeroed struct of a registration or an update
abbrev pub user_of : Bytes → Bytes → Bytes → Bytes → Bytes → Bytes → User
user_of id pw name role edu_code school_code = record {
  id = strncpy (max_id_len - 1) id;
  pw = strncpy (max_pw_len - 1) pw;
  name = strncpy (max_name_len - 1) name;
  role = strncpy (max_role_len - 1) role;
  edu_office = strncpy (max_edu_office_len - 1) edu_code;
  school_name = strncpy (max_school_name_len - 1) school_code;
}

-- The name and the role of the old row, or empty strings where there is none.
abbrev pub old_texts : Option UserBuffer → Option (Bytes × Bytes)
old_texts none = some ([], [])
old_texts (some old) = do name ← old.name; role ← old.role; some (name, role)

-- On a failed INSERT nothing is sent.
abbrev pub added : {Db : Type 0} → Bool × Db → Reply Db
added (true, db) = say db resp_success "회원가입 성공" []
added (false, db) = some (db, [])

module _ (e : Engine) where
  open e use {Db}

  abbrev pub logged_in : Db → Option UserBuffer → Reply Db
  logged_in db none = say db resp_error "데이터베이스 오류" []
  logged_in db (some user) = do text ← login_text user; say db resp_success "로그인 성공" text

  unfoldable pub login_with : Db → Bytes → Bytes → Reply Db
  login_with db id pw =
      if verify_user e db id pw
      then (do user ← get_user e false db id; logged_in db user)
      else say db resp_error "로그인 실패" []

  unfoldable pub login : Db → Params → Reply Db
  unfolding login_with
  login db p = need db p.id λ id. need db p.pw λ pw. login_with db id pw

  unfoldable pub delete : Db → Params → Reply Db
  delete db p = need db p.id λ id. report "사용자 삭제 성공" (delete_user e db id)

module _ (e : Engine) (net : MealService) where
  open e use {Db}
  open net use {resolve_school_code}

  -- handle_register_general, and the response that its caller sends when it returns true
  unfoldable pub register_with : Db → Bytes → Bytes → Lookup → Reply Db
  register_with db id pw missing = say db resp_error "학교 정보를 찾을 수 없습니다." []
  register_with db id pw (codes edu_code school_code) =
      added (add_user e db (user_of id pw [] (bytes role_general) edu_code school_code))
  register_with db id pw unterminated = none

  unfoldable pub register_general : Db → Bytes → Bytes → Bytes → Reply Db
  unfolding register_with
  register_general db id pw school_name =
      if is_user_exists e db id
      then say db resp_error "중복된 아이디" []
      else register_with db id pw (resolve_school_code school_name)

  unfoldable pub register : Db → Params → Reply Db
  unfolding register_general
  register db p = need db p.id λ id. need db p.pw λ pw.
      need db p.edu_office
        λ edu_office. need db p.school_name λ school_name. register_general db id pw school_name

  unfoldable pub update_with : Db → Bytes → Bytes → Lookup → Reply Db
  update_with db id pw missing = say db resp_error "학교 정보를 찾을 수 없습니다." []
  update_with db id pw (codes edu_code school_code) = do
    old ← get_user e true db id
    (name, role) ← old_texts old
    report "사용자 정보 수정 성공" (update_user e db (user_of id pw name role edu_code school_code))
  update_with db id pw unterminated = none

  unfoldable pub update : Db → Params → Reply Db
  unfolding update_with
  update db p = need db p.id λ id. need db p.pw λ pw. need db p.edu_office λ edu_office.
      need db p.school_name λ school_name. update_with db id pw (resolve_school_code school_name)
