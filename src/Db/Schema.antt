-- ===== src/Db/Schema.antt =====
-- init_db of server/db_handler.c: what it executes, and what SQLite documents of these statements.
pub mod Ready
use school_meals.Base.{◌≡◌, Bool, true, false, Option, none, some, List, [], ◌∷◌}
use school_meals.CString.{Bytes, bytes, printed}
use school_meals.Db.{Engine}
use school_meals.Db.Tables.{UserRow, ChildRow, MealRow, Tables}

abbrev pub foreign_keys_on : Bytes
foreign_keys_on = bytes "PRAGMA foreign_keys = ON;"

abbrev pub create_users_table : Bytes
create_users_table = printed (
    bytes "CREATE TABLE IF NOT EXISTS users ("
    ∷ bytes "id TEXT PRIMARY KEY,"
    ∷ bytes "pw TEXT NOT NULL,"
    ∷ bytes "name TEXT,"
    ∷ bytes "role TEXT NOT NULL,"
    ∷ bytes "edu_office TEXT,"
    ∷ bytes "school_name TEXT"
    ∷ bytes ");"
    ∷ [])

abbrev pub create_children_table : Bytes
create_children_table = printed (
    bytes "CREATE TABLE IF NOT EXISTS children ("
    ∷ bytes "child_id TEXT NOT NULL,"
    ∷ bytes "parent_id TEXT NOT NULL,"
    ∷ bytes "PRIMARY KEY (child_id, parent_id),"
    ∷ bytes "FOREIGN KEY (child_id) REFERENCES users(id),"
    ∷ bytes "FOREIGN KEY (parent_id) REFERENCES users(id)"
    ∷ bytes ");"
    ∷ [])

abbrev pub create_meals_table : Bytes
create_meals_table = printed (
    bytes "CREATE TABLE IF NOT EXISTS meals ("
    ∷ bytes "date TEXT NOT NULL,"
    ∷ bytes "edu_office TEXT NOT NULL,"
    ∷ bytes "school_name TEXT NOT NULL,"
    ∷ bytes "meal TEXT NOT NULL,"
    ∷ bytes "PRIMARY KEY (date, edu_office, school_name)"
    ∷ bytes ");"
    ∷ [])

-- The early return after a statement that fails
abbrev pub if_created : {Db : Type 0} → Bool × Db → (Db → Bool × Db) → Bool × Db
if_created (true, db) rest = rest db
if_created (false, db) rest = (false, db)

module _ (e : Engine) where
  open e use {Db, exec}

  -- From what sqlite3_open returns. The result of the PRAGMA is not looked at.
  unfoldable pub init_db : Bool × Db → Bool × Db
  init_db (opened, file) =
      let (_, db) = exec file foreign_keys_on in
      if_created (opened, db)
        (λ db. if_created (exec db create_users_table) (λ db.
          if_created (exec db create_children_table)
            (λ db. if_created (exec db create_meals_table) (λ db. (true, db)))))

-- The tables of a file, each of them there or not yet
pub record Catalog : Type 0 where
  pub foreign_keys : Bool
  pub users : Option (List UserRow)
  pub children : Option (List ChildRow)
  pub meals : Option (List MealRow)

abbrev pub rows_of {ℓ} : {A : Type ℓ} → Option (List A) → List A
rows_of none = []
rows_of (some rows) = rows

abbrev pub with_foreign_keys : Catalog → Catalog
with_foreign_keys c = record {
  foreign_keys = true;
  users = c.users;
  children = c.children;
  meals = c.meals;
}

abbrev pub with_users : Catalog → Catalog
with_users c = record {
  foreign_keys = c.foreign_keys;
  users = some (rows_of c.users);
  children = c.children;
  meals = c.meals;
}

abbrev pub with_children : Catalog → Catalog
with_children c = record {
  foreign_keys = c.foreign_keys;
  users = c.users;
  children = some (rows_of c.children);
  meals = c.meals;
}

abbrev pub with_meals : Catalog → Catalog
with_meals c = record {
  foreign_keys = c.foreign_keys;
  users = c.users;
  children = c.children;
  meals = some (rows_of c.meals);
}

abbrev pub seen_in : {Db : Type 0} → (Db → Catalog) → Bool × Db → Bool × Catalog
seen_in catalog r = (r.0, catalog r.1)

-- The PRAGMA turns the foreign keys on, and CREATE TABLE IF NOT EXISTS adds an empty table or does
-- nothing.
pub record Creates (e : Engine) : Type 0 where
  pub catalog : e.Db → Catalog
  pub exec_foreign_keys :
      (db : e.Db)
      → seen_in catalog (e.exec db foreign_keys_on) ≡ (true, with_foreign_keys (catalog db))
  pub exec_users :
      (db : e.Db) → seen_in catalog (e.exec db create_users_table) ≡ (true, with_users (catalog db))
  pub exec_children :
      (db : e.Db)
      → seen_in catalog (e.exec db create_children_table) ≡ (true, with_children (catalog db))
  pub exec_meals :
      (db : e.Db) → seen_in catalog (e.exec db create_meals_table) ≡ (true, with_meals (catalog db))

-- What is stored, wherever a table is not there yet nothing
abbrev pub stored_in : Catalog → Tables
stored_in c = record {
  users = rows_of c.users;
  children = rows_of c.children;
  meals = rows_of c.meals;
}

-- A catalog on which the statements of db_handler.c work
abbrev pub ready : Tables → Catalog
ready t = record {
  foreign_keys = true;
  users = some t.users;
  children = some t.children;
  meals = some t.meals;
}
