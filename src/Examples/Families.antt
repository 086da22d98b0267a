-- ===== src/Examples/Families.antt =====
-- A parent with a child, as the server registers them.
use school_meals.Base.{
  ◌≡◌, refl, true, false, none, some, List, [], ◌∷◌, map, any, arith, if◌then◌else◌,
}
use school_meals.CString.{Bytes, bytes, bytes_eq}
use school_meals.Db.{Engine, Row}
use school_meals.Db.Tables.{UserRow, Tables}
use school_meals.Db.WellFormed.{WellFormed}
use school_meals.Db.Children.{get_children, child_columns, child_users, Joins}
use school_meals.Db.Children.Named.{is_child_of, get_children_unnamed}

abbrev mother : UserRow
mother = record {
  id = bytes "old1";
  pw = bytes "0000";
  name = none;
  role = bytes "GENERAL";
  edu_office = some (bytes "J10");
  school_name = some (bytes "7530079");
}

abbrev son : UserRow
son = record {
  id = bytes "son1";
  pw = bytes "1111";
  name = none;
  role = bytes "GENERAL";
  edu_office = some (bytes "B10");
  school_name = some (bytes "7010569");
}

abbrev family : Tables
family = record {
  users = mother ∷ son ∷ [];
  children = record { child_id = bytes "son1"; parent_id = bytes "old1" } ∷ [];
  meals = [];
}

family-WellFormed : WellFormed family
unfolding bytes_eq
family-WellFormed = record {
  ids = (refl, (refl, tt));
  rows = (
    record { role = omega arith; edu_office = omega arith; school_name = omega arith },
    (record { role = omega arith; edu_office = omega arith; school_name = omega arith }, tt),
  );
  links = ((refl, refl), tt);
  pairs = (refl, tt);
}

abbrev joined_rows : Tables → List Bytes → List Row
joined_rows t [] = []
joined_rows t (parent_id ∷ []) = map child_columns (child_users parent_id t.users t.children)
joined_rows t (a ∷ b ∷ params) = []

abbrev join_engine : Engine
join_engine = record {
  Db = Tables;
  prepare = λ t sql. true;
  rows = λ t sql params. joined_rows t params;
  step = λ t sql params. (false, t);
  exec = λ t sql. (false, t);
}

join_engine-Joins : Joins join_engine (λ t. t)
join_engine-Joins = record { prepares = λ db. refl; rows_children_users = λ db parent_id. refl }

get_children_unnamed_example :
    get_children join_engine family (bytes "old1")
    ≡ (if any (is_child_of (bytes "old1")) family.children then none else some (true, bytes "[]"))
get_children_unnamed_example =
    get_children_unnamed join_engine (λ t. t) join_engine-Joins family (bytes "old1")
      family-WellFormed (refl, (refl, tt))
