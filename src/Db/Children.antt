-- ===== src/Db/Children.antt =====
-- server/db_handler.c: get_children_raw, and get_children, which prints its result as JSON.
pub mod Named
use school_meals.Base.{
  ℕ, ◌+◌, String, Bool, true, false, Option, none, some, List, [], ◌∷◌, ◌++◌, ◌>>=◌, ◌≡◌, ltb, map,
  keep, if◌then◌else◌,
}
use school_meals.CString.{Bytes, bytes, bytes_eq, printed, snprintf, strncat_rest}
use school_meals.Protocol.{
  buffer_size, max_id_len, max_name_len, max_edu_office_len, max_school_name_len, max_children,
}
use school_meals.Db.{Row, Engine, copied, column}
use school_meals.Db.Tables.{UserRow, ChildRow, Tables, has_id}

abbrev pub sql_children_users : String
sql_children_users =
    "SELECT u.id, u.name, u.edu_office, u.school_name FROM children c JOIN users u ON c.child_id = u.id WHERE c.parent_id = ?;"

-- The struct Child in an array that was not zeroed: `none` is a field with no terminator.
pub record ChildBuffer : Type 0 where
  pub id : Option Bytes
  pub name : Option Bytes
  pub edu_office : Option Bytes
  pub school_name : Option Bytes

unfoldable pub child_of_row : Row → Option ChildBuffer
child_of_row r = do
  id ← column r 0
  name ← column r 1
  edu_office ← column r 2
  school_name ← column r 3
  some (record {
    id = copied false max_id_len id;
    name = copied false max_name_len name;
    edu_office = copied false max_edu_office_len edu_office;
    school_name = copied false max_school_name_len school_name;
  })

-- The loop over the rows; a row behind the last free place is read and dropped.
unfoldable pub child_buffers : ℕ → List Row → Option (List ChildBuffer)
unfolding child_of_row
child_buffers count [] = some []
child_buffers count (r ∷ rest) =
    let more = child_buffers (count + 1) rest in
    if ltb count max_children
    then (do child ← child_of_row r; children ← more; some (child ∷ children))
    else some []

-- One object of the list, into child_json[256]
abbrev pub child_json : Bytes → ChildBuffer → Option Bytes
child_json comma child = do
  id ← child.id
  name ← child.name
  edu_office ← child.edu_office
  school_name ← child.school_name
  some (
      snprintf 256 (
        printed (
          bytes "{\"id\":\""
          ∷ id
          ∷ bytes "\",\"name\":\""
          ∷ name
          ∷ bytes "\",\"edu_office\":\""
          ∷ edu_office
          ∷ bytes "\",\"school_name\":\""
          ∷ school_name
          ∷ bytes "\"}"
          ∷ comma
          ∷ [])))

unfoldable pub children_json : Bytes → List ChildBuffer → Option Bytes
children_json json [] = some json
children_json json (child ∷ []) = do
  text ← child_json [] child
  some (strncat_rest buffer_size json text)
children_json json (child ∷ next ∷ rest) = do
  text ← child_json (bytes ",") child
  children_json (strncat_rest buffer_size json text) (next ∷ rest)

abbrev pub listed : Option (List ChildBuffer) → Option (Bool × Bytes)
listed none = some (false, bytes "데이터베이스 오류")
listed (some children) = do
  json ← children_json (bytes "[") children
  some (true, strncat_rest buffer_size json (bytes "]"))

abbrev pub child_columns : UserRow → Row
child_columns u = some u.id ∷ u.name ∷ u.edu_office ∷ u.school_name ∷ []

-- The join: for each row of a child of this parent, the users of its id
abbrev pub child_users : Bytes → List UserRow → List ChildRow → List UserRow
child_users parent_id users [] = []
child_users parent_id users (c ∷ children) =
    let rest = child_users parent_id users children in
    if bytes_eq c.parent_id parent_id then keep (has_id c.child_id) users ++ rest else rest

module _ (e : Engine) where
  open e use {Db, prepare, rows}

  -- The outer `none` is undefined behaviour, the inner one the return value false.
  unfoldable pub get_children_raw : Db → Bytes → Option (Option (List ChildBuffer))
  unfolding child_buffers
  get_children_raw db parent_id =
      if prepare db sql_children_users
      then (do
        children ← child_buffers 0 (rows db sql_children_users (parent_id ∷ []))
        some (some children))
      else some none

  -- The value, and the text in `response`
  unfoldable pub get_children : Db → Bytes → Option (Bool × Bytes)
  unfolding get_children_raw children_json
  get_children db parent_id = get_children_raw db parent_id >>= listed

-- What SQLite documents of the join
pub record Joins (e : Engine) (view : e.Db → Tables) : Type 0 where
  pub prepares : (db : e.Db) → e.prepare db sql_children_users ≡ true
  pub rows_children_users :
      (db : e.Db) (parent_id : Bytes)
      → e.rows db sql_children_users (parent_id ∷ [])
        ≡ map child_columns (child_users parent_id (view db).users (view db).children)
