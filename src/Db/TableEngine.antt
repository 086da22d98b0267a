-- ===== src/Db/TableEngine.antt =====
-- An engine that is the tables themselves: the assumptions on SQLite can be met.
use text.Mathlib.Text.{◌==◌ as str_eq}
use school_meals.Base.{
  ◌≡◌, refl, Bool, false, Option, none, some, List, [], ◌∷◌, ◌++◌, map, keep, any, String, ◌>>=◌,
  if◌then◌else◌, ℕ, ◌==◌, ==_refl,
}
use school_meals.CString.{Bytes, bytes, token_of, after_token}
use school_meals.CString.Tokens.{token_of-append, after_token-append}
use school_meals.Db.Tables.{
  UserRow, Tables, has_id, has_login, is_pair, is_meal_of, insert_user, update_users, delete_users,
  insert_child, delete_children, replace_meal,
}
use school_meals.Db.Laws.{
  Sqlite, IsPlain, one, user_columns, meal_columns, row_of, sound_statements,
}
use school_meals.Db.{
  Row, Engine, User, sql_user_exists, sql_get_user, sql_update_user, sql_delete_user, sql_save_meal,
  sql_get_meal, sql_add_child, sql_delete_child, sql_child_registered, sql_verify_user,
  insert_user_sql,
}

unfoldable pub table_rows : Tables → String → List Bytes → List Row
table_rows t sql (a ∷ []) =
    if str_eq sql sql_user_exists
    then map (λ u. one) (keep (has_id a) t.users)
    else if str_eq sql sql_get_user
    then map user_columns (keep (has_id a) t.users)
    else []
table_rows t sql (a ∷ b ∷ []) =
    if str_eq sql sql_verify_user
    then map (λ u. one) (keep (has_login a b) t.users)
    else if str_eq sql sql_child_registered
    then map (λ c. one) (keep (is_pair a b) t.children)
    else []
table_rows t sql (a ∷ b ∷ c ∷ []) =
    if str_eq sql sql_get_meal then map meal_columns (keep (is_meal_of a b c) t.meals) else []
table_rows t sql params = []

unfoldable pub table_step : Tables → String → List Bytes → Bool × Tables
unfolding insert_child delete_children delete_users update_users replace_meal
table_step t sql (a ∷ []) = if str_eq sql sql_delete_user then delete_users a t else (false, t)
table_step t sql (a ∷ b ∷ []) =
    if str_eq sql sql_add_child
    then insert_child a b t
    else if str_eq sql sql_delete_child
    then delete_children a b t
    else (false, t)
table_step t sql (a ∷ b ∷ c ∷ d ∷ []) =
    if str_eq sql sql_update_user
    then update_users a b c d t
    else if str_eq sql sql_save_meal
    then replace_meal (record { date = a; edu_office = b; school_name = c; meal = d }) t
    else (false, t)
table_step t sql params = (false, t)

strip_byte : ℕ → Bytes → Option Bytes
strip_byte c [] = none
strip_byte c (d ∷ s) = if c == d then some s else none

strip : Bytes → Bytes → Option Bytes
unfolding strip_byte
strip [] s = some s
strip (c ∷ p) s = do rest ← strip_byte c s; strip p rest

abbrev quote : Bytes
quote = b'\'' ∷ []

-- The texts of the INSERT of add_user, each up to its closing quote.
pub parse_insert : Bytes → Option UserRow
unfolding strip
parse_insert sql = do
  s ← strip (bytes "INSERT INTO users (id, pw, role, edu_office, school_name) VALUES ('") sql
  s1 ← strip (bytes ", '") (after_token quote s)
  s2 ← strip (bytes ", '") (after_token quote s1)
  s3 ← strip (bytes ", '") (after_token quote s2)
  s4 ← strip (bytes ", '") (after_token quote s3)
  s5 ← strip (bytes ");") (after_token quote s4)
  some (record {
    id = token_of quote s;
    pw = token_of quote s1;
    name = none;
    role = token_of quote s2;
    edu_office = some (token_of quote s3);
    school_name = some (token_of quote s4);
  })

abbrev inserted : Option UserRow → Tables → Bool × Tables
inserted none t = (false, t)
inserted (some u) t = insert_user u t

abbrev pub table_engine : Engine
table_engine = record {
  Db = Tables;
  prepare = λ t sql. any (str_eq sql) sound_statements;
  rows = table_rows;
  step = table_step;
  exec = λ t sql. inserted (parse_insert sql) t;
}

strip-append : (p s : Bytes) → strip p (p ++ s) ≡ some s
unfolding strip
strip-append [] s = refl
strip-append (c ∷ p) s = rw (==_refl c) (strip-append p s)

pub parse_insert-insert_user_sql :
    (u : User) → IsPlain u → parse_insert (insert_user_sql u) ≡ some (row_of u)
unfolding parse_insert insert_user_sql
parse_insert-insert_user_sql u h = rw (after_token-append quote u.id b'\'' _ h.id refl) (
    rw (after_token-append quote u.pw b'\'' _ h.pw refl) (
      rw (after_token-append quote u.role b'\'' _ h.role refl) (
        rw (after_token-append quote u.edu_office b'\'' _ h.edu_office refl) (
          rw (after_token-append quote u.school_name b'\'' _ h.school_name refl) (
            simp (
              token_of-append quote u.id b'\'' _ h.id refl,
              token_of-append quote u.pw b'\'' _ h.pw refl,
              token_of-append quote u.role b'\'' _ h.role refl,
              token_of-append quote u.edu_office b'\'' _ h.edu_office refl,
              token_of-append quote u.school_name b'\'' _ h.school_name refl,
            ))))))

unfoldable pub table_sqlite : Sqlite table_engine
unfolding table_rows table_step
table_sqlite = record {
  view = λ t. t;
  prepares = λ t sql h. h;
  rows_user_exists = λ t id. refl;
  rows_verify_user = λ t id pw. refl;
  rows_get_user = λ t id. refl;
  rows_child_registered = λ t c p. refl;
  rows_get_meal = λ t d o s. refl;
  step_update_user = λ t p o s id. refl;
  step_delete_user = λ t id. refl;
  step_save_meal = λ t m. refl;
  step_add_child = λ t c p. refl;
  step_delete_child = λ t c p. refl;
  exec_insert_user = λ t u h. rw (parse_insert-insert_user_sql u h);
}
