-- ===== src/Db/Refines.antt =====
-- Over SQLite with the schema in place, the functions of db_handler.c do to the tables what their
-- statements say, and the tests that they make read the tables.
use school_meals.Base.{
  ◌≡◌, refl, Bool, Option, List, [], ◌∷◌, map, keep, any, arith, length, Bool-cases, inl, inr,
  length-append, take-eq_self, ◌<◌,
}
use school_meals.CString.{Bytes, snprintf}
use school_meals.Db.Tables.{
  MealRow, has_id, has_login, is_pair, insert_user, update_users, delete_users, insert_child,
  delete_children, replace_meal,
}
use school_meals.Db.Laws.{Sqlite, IsPlain, row_of, seen, user_columns}
use school_meals.Db.{
  Engine, User, is_row, insert_user_sql, is_user_exists, verify_user, is_child_registered, get_user,
  add_user, update_user, delete_user, save_meal, db_add_child, db_delete_child, first_user,
}

pub is_row-map-keep {ℓ} :
    {A : Type ℓ} (f : A → List (Option Bytes)) (p : A → Bool) (xs : List A)
    → is_row (map f (keep p xs)) ≡ any p xs
is_row-map-keep f p [] = refl
is_row-map-keep f p (x ∷ xs) = ground (arith, is_row-map-keep f p xs)

-- What the buffers of the callers allow.
pub record IsBounded (u : User) : Type 0 where
  pub id : length u.id < 20
  pub pw : length u.pw < 20
  pub role : length u.role < 20
  pub edu_office : length u.edu_office < 50
  pub school_name : length u.school_name < 50

-- The INSERT of a bounded user is not cut by the 4096 bytes of the buffer.
pub insert_user_sql_fits :
    (u : User) → IsBounded u → snprintf 4096 (insert_user_sql u) ≡ insert_user_sql u
insert_user_sql_fits u h = take-eq_self 4095 (insert_user_sql u) (
    unfold insert_user_sql in
    omega (
      arith,
      length-append {0} u.id,
      length-append {0} u.pw,
      length-append {0} u.role,
      length-append {0} u.edu_office,
      length-append {0} u.school_name,
    ))

module _ (e : Engine) (q : Sqlite e) where
  pub is_user_exists-eq-any :
      (db : e.Db) (id : Bytes) → is_user_exists e db id ≡ any (has_id id) (q.view db).users
  unfolding is_user_exists
  is_user_exists-eq-any db id = rw (q.prepares db _ refl, q.rows_user_exists db id, is_row-map-keep)

  -- Over SQLite, verify_user is true exactly if a row of the users has this id and this password.
  pub verify_user-eq-any :
      (db : e.Db) (id pw : Bytes) → verify_user e db id pw ≡ any (has_login id pw) (q.view db).users
  unfolding verify_user
  verify_user-eq-any db id pw =
      rw (q.prepares db _ refl, q.rows_verify_user db id pw, is_row-map-keep)

  pub is_child_registered-eq-any :
      (db : e.Db) (child_id parent_id : Bytes)
      → is_child_registered e db child_id parent_id
        ≡ any (is_pair child_id parent_id) (q.view db).children
  unfolding is_child_registered
  is_child_registered-eq-any db c p =
      rw (q.prepares db _ refl, q.rows_child_registered db c p, is_row-map-keep)

  pub get_user-eq-first :
      (zeroed : Bool) (db : e.Db) (id : Bytes)
      → get_user e zeroed db id
        ≡ first_user zeroed (map user_columns (keep (has_id id) (q.view db).users))
  unfolding get_user
  get_user-eq-first z db id = rw (q.prepares db _ refl, q.rows_get_user db id)

  -- Over SQLite, update_user returns and does what the UPDATE says of the users: a new password,
  -- office and school in the rows of the id, and true also where there is none.
  pub update_user_refines :
      (db : e.Db) (u : User)
      → seen q.view (update_user e db u)
        ≡ update_users u.pw u.edu_office u.school_name u.id (q.view db)
  unfolding update_user
  update_user_refines db u = rw (q.prepares db _ refl) (q.step_update_user db _ _ _ _)

  -- Over SQLite, delete_user returns and does what the DELETE says: false and no change where a row of
  -- the children refers to a user of the id, and otherwise the rows of the id go, if there are any.
  pub delete_user_refines :
      (db : e.Db) (id : Bytes) → seen q.view (delete_user e db id) ≡ delete_users id (q.view db)
  unfolding delete_user
  delete_user_refines db id = rw (q.prepares db _ refl) (q.step_delete_user db id)

  -- Over SQLite, save_meal puts the meal in the place of any other of the same date, office and
  -- school.
  pub save_meal_refines :
      (db : e.Db) (m : MealRow)
      → seen q.view (save_meal e db m.date m.edu_office m.school_name m.meal)
        ≡ replace_meal m (q.view db)
  unfolding save_meal
  save_meal_refines db m = rw (q.prepares db _ refl) (q.step_save_meal db m)

  pub db_delete_child_refines :
      (db : e.Db) (child_id parent_id : Bytes)
      → seen q.view (db_delete_child e db child_id parent_id)
        ≡ delete_children child_id parent_id (q.view db)
  unfolding db_delete_child
  db_delete_child_refines db c p = rw (q.prepares db _ refl) (q.step_delete_child db c p)

  -- Over SQLite, db_add_child does to the tables what the INSERT alone would do: its test for the
  -- child's account refuses nothing that the foreign keys accept.
  pub db_add_child_refines :
      (db : e.Db) (child_id parent_id : Bytes)
      → seen q.view (db_add_child e db child_id parent_id)
        ≡ insert_child child_id parent_id (q.view db)
  unfolding db_add_child
  db_add_child_refines db c p = elim (Bool-cases (any (has_id c) (q.view db).users)) [
    | inl found ↦
        rw (db_add_child, is_user_exists-eq-any db c, found, q.prepares db _ refl)
          (q.step_add_child db c p)
    | inr missing ↦
        rw (db_add_child, is_user_exists-eq-any db c, missing) (unfold insert_child in rw missing)
  ]

  pub add_user_refines :
      (db : e.Db) (u : User)
      → IsPlain u
      → IsBounded u
      → seen q.view (add_user e db u) ≡ insert_user (row_of u) (q.view db)
  unfolding add_user
  add_user_refines db u plain bounded =
      rw (add_user, insert_user_sql_fits u bounded) (q.exec_insert_user db u plain)
