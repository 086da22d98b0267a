-- ===== src/Server/Threads.antt =====
-- handle_client of server/server.c in the steps that other threads can come between: a request as a
-- sequence of statements on the database. SQLite runs one statement at a time.
pub mod Alone
pub mod Safe
pub mod Interleaved
pub mod Race
use school_meals.Base.{
  Bool, true, false, Option, none, some, List, [], ◌∷◌, ◌++◌, ◌>>=◌, String, ℕ, ◌≡◌, if◌then◌else◌,
}
use school_meals.CString.{Bytes, bytes, bytes_eq}
use school_meals.Protocol.{resp_success, resp_error, response, role_general}
use school_meals.Db.{
  Engine, User, UserBuffer, sql_add_child, verify_user, get_user, is_user_exists,
  is_child_registered, get_meal as stored_meal, add_user, update_user, delete_user, db_delete_child,
}
use school_meals.Neis.{MealService, Lookup, missing, codes, unterminated}
use school_meals.Server.Request.{Params, Reply}
use school_meals.Server.Account.{login_text, user_of, old_texts}
use school_meals.Server.Child.{get_children, child_multi_meal}
use school_meals.Server.Meal.{get_meal, get_multi_meal}

-- What a thread has still to do for its request: to send texts (`none` is undefined behaviour), to
-- read, or to write and go on by the result.
pub data Thread (Db : Type 0) : Type 0 where
  finish : Option (List Bytes) → Thread Db
  reads : (Db → Thread Db) → Thread Db
  writes : (Db → Bool × Db) → (Bool → Thread Db) → Thread Db

module _ {Db : Type 0} where
  abbrev pub tell : ℕ → String → Bytes → Thread Db
  tell status message text = finish (some (response status (bytes message) text ∷ []))

  abbrev pub need_param : Option Bytes → (Bytes → Thread Db) → Thread Db
  need_param none body = tell resp_error "잘못된 요청" []
  need_param (some a) body = body a

  abbrev pub told : String → Bool → Thread Db
  told done true = tell resp_success done []
  told done false = tell resp_error "데이터베이스 오류" []

  abbrev pub texts_of : Reply Db → Option (List Bytes)
  texts_of none = none
  texts_of (some (db, texts)) = some texts

  -- A handler with one statement at most, which reads
  abbrev pub one_read : (Db → Reply Db) → Thread Db
  one_read handler = reads (λ db. finish (texts_of (handler db)))

  -- The thread with no other beside it
  unfoldable pub run : Thread Db → Db → Reply Db
  run (finish none) db = none
  run (finish (some texts)) db = some (db, texts)
  run (reads f) db = run (f db) db
  run (writes w f) db = run (f (w db).0) (w db).1

module _ (e : Engine) where
  open e use {Db, prepare, step}

  abbrev pub login_told : Option Bytes → Thread Db
  login_told none = finish none
  login_told (some text) = tell resp_success "로그인 성공" text

  abbrev pub login_done : Option (Option UserBuffer) → Thread Db
  login_done none = finish none
  login_done (some none) = tell resp_error "데이터베이스 오류" []
  login_done (some (some user)) = login_told (login_text user)

  -- verify_user, and then get_user
  abbrev pub login_thread : Params → Thread Db
  login_thread p = need_param p.id λ id. need_param p.pw λ pw. reads (λ db.
      if verify_user e db id pw
      then reads (λ db. login_done (get_user e false db id))
      else tell resp_error "로그인 실패" [])

  abbrev pub delete_thread : Params → Thread Db
  delete_thread p = need_param p.id λ id. writes (λ db. delete_user e db id) (told "사용자 삭제 성공")

  -- The INSERT of db_add_child, after its own test
  unfoldable pub insert_child_row : Bytes → Bytes → Db → Bool × Db
  insert_child_row child_id parent_id db =
      if prepare db sql_add_child
      then step db sql_add_child (child_id ∷ parent_id ∷ [])
      else (false, db)

  abbrev pub add_child_thread : Params → Thread Db
  add_child_thread p = need_param p.id λ id. need_param p.child_id λ child_id. reads (λ db.
      if is_user_exists e db child_id
      then reads (λ db.
        if is_user_exists e db child_id
        then writes (insert_child_row child_id id) (told "자녀 추가 성공")
        else told "자녀 추가 성공" false)
      else tell resp_error "자녀 사용자를 찾을 수 없습니다" [])

  abbrev pub delete_child_thread : Params → Thread Db
  delete_child_thread p = need_param p.id λ id. need_param p.child_id λ child_id. reads (λ db.
      if is_child_registered e db child_id id
      then writes (λ db. db_delete_child e db child_id id) (told "자녀 삭제 성공")
      else tell resp_error "잘못된 자녀 ID입니다" [])

  abbrev pub child_meal_done : Option (Option Bytes) → Thread Db
  child_meal_done none = finish none
  child_meal_done (some none) = tell resp_error "자녀 급식 정보를 찾을 수 없습니다" []
  child_meal_done (some (some meal)) = tell resp_success "자녀 급식 정보 조회 성공" meal

  abbrev pub child_meal_query : Bytes → Option Bytes → Option Bytes → Thread Db
  child_meal_query date (some edu_office) (some school_name) =
      reads (λ db. child_meal_done (stored_meal e db date edu_office school_name))
  child_meal_query date (some edu_office) none = finish none
  child_meal_query date none school_name = finish none

  abbrev pub child_meal_for : Bytes → Option (Option UserBuffer) → Thread Db
  child_meal_for date none = finish none
  child_meal_for date (some none) = tell resp_error "자녀 사용자를 찾을 수 없습니다" []
  child_meal_for date (some (some child)) = child_meal_query date child.edu_office child.school_name

  -- is_child_registered, get_user and get_meal
  abbrev pub child_meal_thread : Params → Thread Db
  child_meal_thread p = need_param p.id λ id. need_param p.child_id λ child_id.
      need_param p.date λ date. reads (λ db.
        if is_child_registered e db child_id id
        then reads (λ db. child_meal_for date (get_user e false db child_id))
        else tell resp_error "잘못된 자녀 ID입니다" [])

module _ (e : Engine) (net : MealService) where
  open e use {Db}
  open net use {resolve_school_code}

  abbrev pub add_done : Bool → Thread Db
  add_done true = tell resp_success "회원가입 성공" []
  add_done false = finish (some [])

  abbrev pub register_with_thread : Bytes → Bytes → Lookup → Thread Db
  register_with_thread id pw missing = tell resp_error "학교 정보를 찾을 수 없습니다." []
  register_with_thread id pw (codes edu_code school_code) =
      writes (λ db. add_user e db (user_of id pw [] (bytes role_general) edu_code school_code))
        add_done
  register_with_thread id pw unterminated = finish none

  -- is_user_exists, and then the INSERT
  abbrev pub register_thread : Params → Thread Db
  register_thread p = need_param p.id λ id. need_param p.pw λ pw.
      need_param p.edu_office λ edu_office. need_param p.school_name λ school_name. reads (λ db.
        if is_user_exists e db id
        then tell resp_error "중복된 아이디" []
        else register_with_thread id pw (resolve_school_code school_name))

  abbrev pub update_row : Bytes → Bytes → Bytes → Bytes → Option (Bytes × Bytes) → Thread Db
  update_row id pw edu_code school_code none = finish none
  update_row id pw edu_code school_code (some (name, role)) =
      writes (λ db. update_user e db (user_of id pw name role edu_code school_code))
        (told "사용자 정보 수정 성공")

  abbrev pub update_old : Bytes → Bytes → Bytes → Bytes → Option (Option UserBuffer) → Thread Db
  update_old id pw edu_code school_code none = finish none
  update_old id pw edu_code school_code (some old) =
      update_row id pw edu_code school_code (old_texts old)

  abbrev pub update_with_thread : Bytes → Bytes → Lookup → Thread Db
  update_with_thread id pw missing = tell resp_error "학교 정보를 찾을 수 없습니다." []
  update_with_thread id pw (codes edu_code school_code) =
      reads (λ db. update_old id pw edu_code school_code (get_user e true db id))
  update_with_thread id pw unterminated = finish none

  -- get_user, and then the UPDATE
  abbrev pub update_thread : Params → Thread Db
  update_thread p = need_param p.id λ id. need_param p.pw λ pw.
      need_param p.edu_office λ edu_office.
        need_param p.school_name
          λ school_name. update_with_thread id pw (resolve_school_code school_name)

  unfoldable pub thread_of : Params → Thread Db
  thread_of p =
      if bytes_eq p.cmd (bytes "LOGIN")
      then login_thread e p
      else if bytes_eq p.cmd (bytes "REGISTER_GENERAL")
      then register_thread p
      else if bytes_eq p.cmd (bytes "UPDATE")
      then update_thread p
      else if bytes_eq p.cmd (bytes "DELETE")
      then delete_thread e p
      else if bytes_eq p.cmd (bytes "GET_CHILDREN")
      then one_read (λ db. get_children e db p)
      else if bytes_eq p.cmd (bytes "ADD_CHILD")
      then add_child_thread e p
      else if bytes_eq p.cmd (bytes "DEL_CHILD")
      then delete_child_thread e p
      else if bytes_eq p.cmd (bytes "CHILD_MEAL")
      then child_meal_thread e p
      else if bytes_eq p.cmd (bytes "CHILD_MULTI_MEAL")
      then one_read (λ db. child_multi_meal e db p)
      else if bytes_eq p.cmd (bytes "GET_MEAL")
      then one_read (λ db. get_meal net db p)
      else if bytes_eq p.cmd (bytes "GET_MULTI_MEAL")
      then one_read (λ db. get_multi_meal net db p)
      else tell resp_error "알 수 없는 명령어" []
