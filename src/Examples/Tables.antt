-- ===== src/Examples/Tables.antt =====
-- The functions of the database and the handlers over one row of users.
use school_meals.Base.{◌≡◌, ◌⊎◌, refl, true, some, none, [], ◌∷◌, length}
use school_meals.CString.{Bytes, bytes, bytes_eq}
use school_meals.Protocol.{response, resp_error, role_general}
use school_meals.Db.{User, db_add_child}
use school_meals.Db.Tables.{MealRow, Tables, insert_child}
use school_meals.Db.Laws.{seen}
use school_meals.Db.TableEngine.{table_engine, table_sqlite}
use school_meals.Db.WellFormed.{WellFormed}
use school_meals.Db.Refines.{db_add_child_refines}
use school_meals.Server.Request.{Params}
use school_meals.Server.Account.{user_of, login_with}
use school_meals.Server.Child.{get_children}
use school_meals.Server.Dispatch.{dispatch}
use school_meals.Server.Frame.{dispatch_answers, dispatch_reads}
use school_meals.Server.Login.{login_answer, find_user, login_with_lem}
use school_meals.Examples.Data.{
  user123, pin, b10, school_code, one_row, one_row-WellFormed, service,
}

abbrev new_user : User
new_user = user_of user123 pin [] (bytes role_general) b10 school_code

abbrev lunch : MealRow
lunch = record {
  date = bytes "20240621";
  edu_office = b10;
  school_name = school_code;
  meal = bytes "rice";
}

db_add_child_refines_example :
    seen (table_sqlite.view) (db_add_child table_engine one_row (bytes "old1") user123)
    ≡ insert_child (bytes "old1") user123 one_row
unfolding table_sqlite
db_add_child_refines_example =
    db_add_child_refines table_engine table_sqlite one_row (bytes "old1") user123

login_with_lem_example :
    login_with table_engine one_row (bytes "old1") (bytes "0000")
    ≡ some (one_row, login_answer (bytes "0000") (find_user (bytes "old1") one_row.users) ∷ [])
unfolding table_sqlite
login_with_lem_example =
    login_with_lem table_engine table_sqlite one_row one_row-WellFormed (bytes "old1")
      (bytes "0000")

abbrev request : Bytes → Params
request cmd = record {
  cmd = cmd;
  id = none;
  pw = none;
  edu_office = none;
  school_name = none;
  date = none;
  child_id = none;
  period = none;
}

abbrev refused : Bytes
refused = response resp_error (bytes "잘못된 요청") []

children_refused :
    dispatch table_engine service one_row (request (bytes "GET_CHILDREN"))
    ≡ some (one_row, refused ∷ [])
unfolding dispatch get_children bytes_eq
children_refused = refl

dispatch_reads_example : one_row ≡ one_row
unfolding bytes_eq
dispatch_reads_example =
    dispatch_reads table_engine service one_row (request (bytes "GET_CHILDREN")) one_row
      (refused ∷ []) children_refused refl

dispatch_answers_example :
    (length (refused ∷ []) ≡ 1)
    ⊎ ((bytes_eq (bytes "GET_CHILDREN") (bytes "REGISTER_GENERAL") ≡ true) × (refused ∷ [] ≡ []))
dispatch_answers_example =
    dispatch_answers table_engine service one_row (request (bytes "GET_CHILDREN")) one_row
      (refused ∷ []) children_refused

abbrev deletion : Params
deletion = record {
  cmd = bytes "DELETE";
  id = some (bytes "old1");
  pw = none;
  edu_office = none;
  school_name = none;
  date = none;
  child_id = none;
  period = none;
}

abbrev empty : Tables
empty = record { users = []; children = []; meals = [] }
