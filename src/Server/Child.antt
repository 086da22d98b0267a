-- ===== src/Server/Child.antt =====
-- The commands of handle_client on a parent's children.
use school_meals.Base.{false, Option, none, some, List, [], ◌∷◌, ◌>>=◌, if◌then◌else◌}
use school_meals.CString.{Bytes, bytes}
use school_meals.Protocol.{resp_success, resp_error}
use school_meals.Db.{
  Engine, UserBuffer, is_user_exists, is_child_registered, get_user, get_meal, get_children_db,
  db_add_child, db_delete_child,
}
use school_meals.Server.Request.{Params, Reply, say, need, report, parse_period}

-- The JSON text of the children. The names in the array were never written, so the first child's
-- is read uninitialised: undefined.
abbrev pub children_json : List Bytes → Option Bytes
children_json [] = some (bytes "[]")
children_json (id ∷ ids) = none

module _ (e : Engine) where
  open e use {Db}

  abbrev listed : Db → Option (List Bytes) → Reply Db
  listed db none = say db resp_error "데이터베이스 오류" []
  listed db (some ids) = do json ← children_json ids; say db resp_success "자녀 목록 조회 성공" json

  unfoldable pub get_children : Db → Params → Reply Db
  get_children db p = need db p.id λ id. do ids ← get_children_db e db id; listed db ids

  unfoldable pub add_child : Db → Params → Reply Db
  add_child db p = need db p.id λ id. need db p.child_id λ child_id.
      if is_user_exists e db child_id
      then report "자녀 추가 성공" (db_add_child e db child_id id)
      else say db resp_error "자녀 사용자를 찾을 수 없습니다" []

  unfoldable pub delete_child : Db → Params → Reply Db
  delete_child db p = need db p.id λ id. need db p.child_id λ child_id.
      if is_child_registered e db child_id id
      then report "자녀 삭제 성공" (db_delete_child e db child_id id)
      else say db resp_error "잘못된 자녀 ID입니다" []

  abbrev child_meal_found : Db → Option Bytes → Reply Db
  child_meal_found db none = say db resp_error "자녀 급식 정보를 찾을 수 없습니다" []
  child_meal_found db (some meal) = say db resp_success "자녀 급식 정보 조회 성공" meal

  -- The two strings of the child's row that the query reads.
  abbrev child_meal_of : Db → Bytes → Option UserBuffer → Reply Db
  child_meal_of db date none = say db resp_error "자녀 사용자를 찾을 수 없습니다" []
  child_meal_of db date (some child) = do
    edu_office ← child.edu_office
    school_name ← child.school_name
    meal ← get_meal e db date edu_office school_name
    child_meal_found db meal

  unfoldable pub child_meal : Db → Params → Reply Db
  child_meal db p = need db p.id λ id. need db p.child_id λ child_id. need db p.date λ date.
      if is_child_registered e db child_id id
      then (do child ← get_user e false db child_id; child_meal_of db date child)
      else say db resp_error "잘못된 자녀 ID입니다" []

  -- The query itself is not implemented in the source.
  abbrev period_answer : Db → Option (Bytes × Bytes) → Reply Db
  period_answer db none = say db resp_error "잘못된 날짜 형식입니다" []
  period_answer db (some dates) = say db resp_success "자녀 기간 급식 정보 조회 성공" []

  unfoldable pub child_multi_meal : Db → Params → Reply Db
  child_multi_meal db p = need db p.id λ id. need db p.child_id λ child_id.
      need db p.period λ period.
        if is_child_registered e db child_id id
        then period_answer db (parse_period period)
        else say db resp_error "잘못된 자녀 ID입니다" []
