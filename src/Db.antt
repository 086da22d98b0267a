-- ===== src/Db.antt =====
-- server/db_handler.c over an abstract SQLite: `Engine` has the calls of sqlite3 that the file
-- makes, one operation for the run of a whole statement.
pub mod Children
pub mod Schema
pub mod Tables
pub mod Laws
pub mod TableEngine
pub mod Refines
pub mod WellFormed
use school_meals.Base.{
  ℕ, zero, ◌-◌, String, Bool, true, false, Option, none, some, List, [], ◌∷◌, ◌++◌, ◌>>=◌,
  get_elem?, if◌then◌else◌, length, ltb,
}
use school_meals.CString.{Bytes, bytes, printed, snprintf, strncpy, strncpy_raw}
use school_meals.Protocol.{
  buffer_size, max_id_len, max_pw_len, max_role_len, max_edu_office_len, max_school_name_len,
  max_meal_len, max_children, max_date_len,
}

-- A row of a SELECT: a column that is NULL reads as a null pointer, `none`.
abbrev pub Row : Type 0
Row = List (Option Bytes)

-- sqlite3 is not part of the sources.
pub record Engine : Type 1 where
  pub Db : Type 0
  -- sqlite3_prepare_v2 returns SQLITE_OK
  pub prepare : Db → String → Bool
  -- the rows that the calls of sqlite3_step return, with these texts bound
  pub rows : Db → String → List Bytes → List Row
  -- sqlite3_step of a statement with no rows: whether it returns SQLITE_DONE
  pub step : Db → String → List Bytes → Bool × Db
  -- sqlite3_exec returns SQLITE_OK
  pub exec : Db → Bytes → Bool × Db

abbrev pub sql_user_exists : String
sql_user_exists = "SELECT 1 FROM users WHERE id = ?;"

abbrev pub sql_get_user : String
sql_get_user = "SELECT id, pw, role, edu_office, school_name FROM users WHERE id = ?;"

abbrev pub sql_children_of : String
sql_children_of = "SELECT id FROM children WHERE parent_id = ?;"

abbrev pub sql_update_user : String
sql_update_user = "UPDATE users SET pw = ?, edu_office = ?, school_name = ? WHERE id = ?;"

abbrev pub sql_delete_user : String
sql_delete_user = "DELETE FROM users WHERE id = ?;"

abbrev pub sql_save_meal : String
sql_save_meal =
    "INSERT OR REPLACE INTO meals (date, edu_office, school_name, meal) VALUES (?, ?, ?, ?);"

abbrev pub sql_get_meal : String
sql_get_meal = "SELECT meal FROM meals WHERE date = ? AND edu_office = ? AND school_name = ?;"

abbrev pub sql_add_child : String
sql_add_child = "INSERT INTO children (child_id, parent_id) VALUES (?, ?);"

abbrev pub sql_delete_child : String
sql_delete_child = "DELETE FROM children WHERE child_id = ? AND parent_id = ?;"

abbrev pub sql_child_registered : String
sql_child_registered = "SELECT 1 FROM children WHERE child_id = ? AND parent_id = ?;"

abbrev pub sql_verify_user : String
sql_verify_user = "SELECT 1 FROM users WHERE id = ? AND pw = ?;"

-- The struct User with all its strings terminated.
pub record User : Type 0 where
  pub id : Bytes
  pub pw : Bytes
  pub name : Bytes
  pub role : Bytes
  pub edu_office : Bytes
  pub school_name : Bytes

-- The struct User as get_user leaves it: `none` is a field with no terminator, or never written.
pub record UserBuffer : Type 0 where
  pub id : Option Bytes
  pub pw : Option Bytes
  pub name : Option Bytes
  pub role : Option Bytes
  pub edu_office : Option Bytes
  pub school_name : Option Bytes

-- strncpy(field, text, size - 1) into a struct that was zeroed, or was not
abbrev pub copied : Bool → ℕ → Bytes → Option Bytes
copied true size s = some (strncpy (size - 1) s)
copied false size s = strncpy_raw (size - 1) s

abbrev untouched : Bool → Option Bytes
untouched true = some []
untouched false = none

-- sqlite3_column_text as an argument of strncpy: a null pointer there is undefined, `none`
abbrev pub column : Row → ℕ → Option Bytes
column r i = get_elem? r i >>= λ c. c

abbrev pub is_row : List Row → Bool
is_row [] = false
is_row (r ∷ rest) = true

unfoldable pub user_of_row : Bool → Row → Option UserBuffer
user_of_row zeroed r = do
  id ← column r 0
  pw ← column r 1
  role ← column r 2
  edu_office ← column r 3
  school_name ← column r 4
  some (record {
    id = copied zeroed max_id_len id;
    pw = copied zeroed max_pw_len pw;
    name = untouched zeroed;
    role = copied zeroed max_role_len role;
    edu_office = copied zeroed max_edu_office_len edu_office;
    school_name = copied zeroed max_school_name_len school_name;
  })

-- The outer `none` is undefined behaviour, the inner one the return value false.
abbrev pub first_user : Bool → List Row → Option (Option UserBuffer)
first_user zeroed [] = some none
first_user zeroed (r ∷ rest) = do u ← user_of_row zeroed r; some (some u)

-- strncpy(meal->meal, column, MAX_MEAL_LEN - 1) into a zeroed struct
abbrev pub first_meal : List Row → Option (Option Bytes)
first_meal [] = some none
first_meal (r ∷ rest) = do m ← column r 0; some (some (strncpy (max_meal_len - 1) m))

-- The loop of get_children_db over the rows, with the ids so far: strcpy has room for 19 bytes.
unfoldable pub children_ids : List Row → List Bytes → Option (List Bytes)
children_ids [] ids = some ids
children_ids (r ∷ rest) ids =
    if ltb (length ids) max_children
    then (do
      child_id ← column r 0
      if ltb (length child_id) max_id_len then children_ids rest (ids ++ child_id ∷ []) else none)
    else children_ids rest ids

-- The text that add_user hands to sqlite3_exec.
unfoldable pub insert_user_sql : User → Bytes
insert_user_sql u = printed (
    bytes "INSERT INTO users (id, pw, role, edu_office, school_name) VALUES ('"
    ∷ u.id
    ∷ bytes "', '"
    ∷ u.pw
    ∷ bytes "', '"
    ∷ u.role
    ∷ bytes "', '"
    ∷ u.edu_office
    ∷ bytes "', '"
    ∷ u.school_name
    ∷ bytes "');"
    ∷ [])

module _ (e : Engine) where
  open e use {Db, prepare, rows, step, exec}

  unfoldable pub is_user_exists : Db → Bytes → Bool
  is_user_exists db id =
      if prepare db sql_user_exists then is_row (rows db sql_user_exists (id ∷ [])) else false

  unfoldable pub verify_user : Db → Bytes → Bytes → Bool
  verify_user db id pw =
      if prepare db sql_verify_user then is_row (rows db sql_verify_user (id ∷ pw ∷ [])) else false

  unfoldable pub is_child_registered : Db → Bytes → Bytes → Bool
  is_child_registered db child_id parent_id =
      if prepare db sql_child_registered
      then is_row (rows db sql_child_registered (child_id ∷ parent_id ∷ []))
      else false

  unfoldable pub get_user : Bool → Db → Bytes → Option (Option UserBuffer)
  get_user zeroed db id =
      if prepare db sql_get_user
      then first_user zeroed (rows db sql_get_user (id ∷ []))
      else some none

  unfoldable pub get_meal : Db → Bytes → Bytes → Bytes → Option (Option Bytes)
  get_meal db date edu_office school_name =
      if prepare db sql_get_meal
      then first_meal (rows db sql_get_meal (date ∷ edu_office ∷ school_name ∷ []))
      else some none

  unfoldable pub get_children_db : Db → Bytes → Option (Option (List Bytes))
  get_children_db db parent_id =
      if prepare db sql_children_of
      then (do ids ← children_ids (rows db sql_children_of (parent_id ∷ [])) []; some (some ids))
      else some none

  unfoldable pub add_user : Db → User → Bool × Db
  add_user db u = exec db (snprintf buffer_size (insert_user_sql u))

  unfoldable pub update_user : Db → User → Bool × Db
  update_user db u =
      if prepare db sql_update_user
      then step db sql_update_user (u.pw ∷ u.edu_office ∷ u.school_name ∷ u.id ∷ [])
      else (false, db)

  unfoldable pub delete_user : Db → Bytes → Bool × Db
  delete_user db id =
      if prepare db sql_delete_user then step db sql_delete_user (id ∷ []) else (false, db)

  unfoldable pub save_meal : Db → Bytes → Bytes → Bytes → Bytes → Bool × Db
  save_meal db date edu_office school_name meal =
      if prepare db sql_save_meal
      then step db sql_save_meal (date ∷ edu_office ∷ school_name ∷ meal ∷ [])
      else (false, db)

  unfoldable pub db_add_child : Db → Bytes → Bytes → Bool × Db
  db_add_child db child_id parent_id =
      if is_user_exists db child_id
      then (if prepare db sql_add_child
          then step db sql_add_child (child_id ∷ parent_id ∷ [])
          else (false, db))
      else (false, db)

  unfoldable pub db_delete_child : Db → Bytes → Bytes → Bool × Db
  db_delete_child db child_id parent_id =
      if prepare db sql_delete_child
      then step db sql_delete_child (child_id ∷ parent_id ∷ [])
      else (false, db)
