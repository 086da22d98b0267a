-- ===== src/Db/Tables.antt =====
-- The tables that init_db of server/db_handler.c creates, and what the statements of that file do
-- to them: the abstract view of the database.
use school_meals.Base.{
  Bool, true, false, not, ◌&&◌, ◌||◌, Option, some, List, [], ◌∷◌, ◌++◌, map, keep, any,
  if◌then◌else◌,
}
use school_meals.CString.{Bytes, bytes_eq}

pub record UserRow : Type 0 where
  pub id : Bytes
  pub pw : Bytes
  pub name : Option Bytes
  pub role : Bytes
  pub edu_office : Option Bytes
  pub school_name : Option Bytes

pub record ChildRow : Type 0 where
  pub child_id : Bytes
  pub parent_id : Bytes

pub record MealRow : Type 0 where
  pub date : Bytes
  pub edu_office : Bytes
  pub school_name : Bytes
  pub meal : Bytes

pub record Tables : Type 0 where
  pub users : List UserRow
  pub children : List ChildRow
  pub meals : List MealRow

abbrev pub has_id : Bytes → UserRow → Bool
has_id id u = bytes_eq u.id id

abbrev pub has_login : Bytes → Bytes → UserRow → Bool
has_login id pw u = bytes_eq u.id id && bytes_eq u.pw pw

abbrev pub is_pair : Bytes → Bytes → ChildRow → Bool
is_pair child_id parent_id c = bytes_eq c.child_id child_id && bytes_eq c.parent_id parent_id

abbrev pub is_meal_of : Bytes → Bytes → Bytes → MealRow → Bool
is_meal_of date edu_office school_name m =
    bytes_eq m.date date && bytes_eq m.edu_office edu_office && bytes_eq m.school_name school_name

abbrev pub refers_to : Bytes → ChildRow → Bool
refers_to id c = bytes_eq c.child_id id || bytes_eq c.parent_id id

-- INSERT INTO users: the id is the primary key.
unfoldable pub insert_user : UserRow → Tables → Bool × Tables
insert_user u t =
    if any (has_id u.id) t.users then (false, t) else (true, record t { users = t.users ++ u ∷ [] })

abbrev pub updated : Bytes → Bytes → Bytes → Bytes → UserRow → UserRow
updated pw edu_office school_name id u =
    if bytes_eq u.id id
    then record u { pw = pw; edu_office = some edu_office; school_name = some school_name }
    else u

-- UPDATE users … WHERE id = ?
unfoldable pub update_users : Bytes → Bytes → Bytes → Bytes → Tables → Bool × Tables
update_users pw edu_office school_name id t =
    (true, record t { users = map (updated pw edu_office school_name id) t.users })

-- DELETE FROM users WHERE id = ?: a row that children refers to stays, by the foreign keys.
unfoldable pub delete_users : Bytes → Tables → Bool × Tables
delete_users id t =
    if any (has_id id) t.users && any (refers_to id) t.children
    then (false, t)
    else (true, record t { users = keep (λ u. not (has_id id u)) t.users })

-- INSERT INTO children: both ids are foreign keys, and the pair is the primary key.
unfoldable pub insert_child : Bytes → Bytes → Tables → Bool × Tables
insert_child child_id parent_id t =
    if any (has_id child_id) t.users
      && any (has_id parent_id) t.users
      && not (any (is_pair child_id parent_id) t.children)
    then (
      true,
      record t {
        children = t.children ++ record { child_id = child_id; parent_id = parent_id } ∷ [];
      },
    )
    else (false, t)

unfoldable pub delete_children : Bytes → Bytes → Tables → Bool × Tables
delete_children child_id parent_id t =
    (true, record t { children = keep (λ c. not (is_pair child_id parent_id c)) t.children })

-- INSERT OR REPLACE INTO meals
unfoldable pub replace_meal : MealRow → Tables → Bool × Tables
replace_meal m t = (
  true,
  record t {
    meals = keep (λ n. not (is_meal_of m.date m.edu_office m.school_name n)) t.meals ++ m ∷ [];
  },
)
