-- ===== src/Db/Laws.antt =====
-- What db_handler.c relies on in SQLite: with the schema of init_db in place and no fault of the
-- disk, its statements read and write the tables as documented.
use school_meals.Base.{◌≡◌, Bool, true, none, some, List, [], ◌∷◌, map, keep, any, String}
use text.Mathlib.Text.{◌==◌ as str_eq}
use school_meals.CString.{Bytes, bytes}
use school_meals.CString.Tokens.{Lacks}
use school_meals.Db.Tables.{
  UserRow, MealRow, Tables, has_id, has_login, is_pair, is_meal_of, insert_user, update_users,
  delete_users, insert_child, delete_children, replace_meal,
}
use school_meals.Db.{
  Row, Engine, User, sql_user_exists, sql_get_user, sql_update_user, sql_delete_user, sql_save_meal,
  sql_get_meal, sql_add_child, sql_delete_child, sql_child_registered, sql_verify_user,
  insert_user_sql,
}

-- The statements whose tables and columns exist.
abbrev pub sound_statements : List String
sound_statements =
    sql_user_exists ∷ sql_get_user ∷ sql_update_user ∷ sql_delete_user ∷ sql_save_meal
    ∷ sql_get_meal ∷ sql_add_child ∷ sql_delete_child ∷ sql_child_registered ∷ sql_verify_user ∷ []

abbrev pub one : Row
one = some (bytes "1") ∷ []

abbrev pub user_columns : UserRow → Row
user_columns u = some u.id ∷ some u.pw ∷ some u.role ∷ u.edu_office ∷ u.school_name ∷ []

abbrev pub meal_columns : MealRow → Row
meal_columns m = some m.meal ∷ []

-- The row that the INSERT of add_user writes: it gives no name.
abbrev pub row_of : User → UserRow
row_of u = record {
  id = u.id;
  pw = u.pw;
  name = none;
  role = u.role;
  edu_office = some u.edu_office;
  school_name = some u.school_name;
}

-- The texts hold no quote, which would end the literal of the INSERT.
pub record IsPlain (u : User) : Type 0 where
  pub id : Lacks (b'\'' ∷ []) u.id
  pub pw : Lacks (b'\'' ∷ []) u.pw
  pub role : Lacks (b'\'' ∷ []) u.role
  pub edu_office : Lacks (b'\'' ∷ []) u.edu_office
  pub school_name : Lacks (b'\'' ∷ []) u.school_name

abbrev pub seen : {Db : Type 0} → (Db → Tables) → Bool × Db → Bool × Tables
seen view r = (r.0, view r.1)

pub record Sqlite (e : Engine) : Type 0 where
  pub view : e.Db → Tables
  pub prepares :
      (db : e.Db) (sql : String)
      → any (str_eq sql) sound_statements ≡ true
      → e.prepare db sql ≡ true
  pub rows_user_exists :
      (db : e.Db) (id : Bytes)
      → e.rows db sql_user_exists (id ∷ []) ≡ map (λ u. one) (keep (has_id id) (view db).users)
  pub rows_verify_user :
      (db : e.Db) (id pw : Bytes)
      → e.rows db sql_verify_user (id ∷ pw ∷ [])
        ≡ map (λ u. one) (keep (has_login id pw) (view db).users)
  pub rows_get_user :
      (db : e.Db) (id : Bytes)
      → e.rows db sql_get_user (id ∷ []) ≡ map user_columns (keep (has_id id) (view db).users)
  pub rows_child_registered :
      (db : e.Db) (child_id parent_id : Bytes)
      → e.rows db sql_child_registered (child_id ∷ parent_id ∷ [])
        ≡ map (λ c. one) (keep (is_pair child_id parent_id) (view db).children)
  pub rows_get_meal :
      (db : e.Db) (date edu_office school_name : Bytes)
      → e.rows db sql_get_meal (date ∷ edu_office ∷ school_name ∷ [])
        ≡ map meal_columns (keep (is_meal_of date edu_office school_name) (view db).meals)
  pub step_update_user :
      (db : e.Db) (pw edu_office school_name id : Bytes)
      → seen view (e.step db sql_update_user (pw ∷ edu_office ∷ school_name ∷ id ∷ []))
        ≡ update_users pw edu_office school_name id (view db)
  pub step_delete_user :
      (db : e.Db) (id : Bytes)
      → seen view (e.step db sql_delete_user (id ∷ [])) ≡ delete_users id (view db)
  pub step_save_meal :
      (db : e.Db) (m : MealRow)
      → seen view (e.step db sql_save_meal (m.date ∷ m.edu_office ∷ m.school_name ∷ m.meal ∷ []))
        ≡ replace_meal m (view db)
  pub step_add_child :
      (db : e.Db) (child_id parent_id : Bytes)
      → seen view (e.step db sql_add_child (child_id ∷ parent_id ∷ []))
        ≡ insert_child child_id parent_id (view db)
  pub step_delete_child :
      (db : e.Db) (child_id parent_id : Bytes)
      → seen view (e.step db sql_delete_child (child_id ∷ parent_id ∷ []))
        ≡ delete_children child_id parent_id (view db)
  pub exec_insert_user :
      (db : e.Db) (u : User)
      → IsPlain u
      → seen view (e.exec db (insert_user_sql u)) ≡ insert_user (row_of u) (view db)
