-- ===== src/Examples/Data.antt =====
-- A small database over the tables themselves, and a meal service that knows one school.
use school_meals.Base.{◌<◌, refl, none, some, [], ◌∷◌, arith, ap, subst, length}
use school_meals.CString.{Bytes, bytes}
use school_meals.CString.Tokens.{Lacks, Lacks-of_test}
use school_meals.Db.Tables.{UserRow, Tables}
use school_meals.Db.WellFormed.{WellFormed}
use school_meals.Neis.{MealService, Lookup, codes, HasPlainCodes}
use school_meals.Server.Wire.{IsParam, IsParam-of_test}

abbrev pub user123 : Bytes
user123 = bytes "user123"

abbrev pub pin : Bytes
pin = bytes "1234"

abbrev pub office : Bytes
office = bytes "서울특별시교육청"

abbrev pub school : Bytes
school = bytes "서울고등학교"

abbrev pub b10 : Bytes
b10 = bytes "B10"

abbrev pub school_code : Bytes
school_code = bytes "7010569"

abbrev pub old_user : UserRow
old_user = record {
  id = bytes "old1";
  pw = bytes "0000";
  name = none;
  role = bytes "GENERAL";
  edu_office = some (bytes "J10");
  school_name = some (bytes "7530079");
}

abbrev pub one_row : Tables
one_row = record { users = old_user ∷ []; children = []; meals = [] }

abbrev pub service : MealService
service = record {
  resolve_school_code = λ name. codes b10 school_code;
  get_meal_from_neis = λ edu_office code date. some none;
  get_meals_period_from_neis = λ edu_office code start_date end_date. some none;
}

abbrev code_of : Lookup → Bytes × Bytes
code_of (codes a b) = (a, b)
code_of look = ([], [])

pub service-HasPlainCodes : HasPlainCodes service
service-HasPlainCodes = record {
  short = λ name a b h.
      subst (λ (c : Bytes × Bytes). (length c.0 < 10) × (length c.1 < 20)) (ap code_of h)
        (omega arith, omega arith);
  plain = λ name a b h.
      subst (λ (c : Bytes × Bytes). Lacks (b'\'' ∷ []) c.0 × Lacks (b'\'' ∷ []) c.1) (ap code_of h)
        (Lacks-of_test (b'\'' ∷ []) b10 refl, Lacks-of_test (b'\'' ∷ []) school_code refl);
}

pub one_row-WellFormed : WellFormed one_row
one_row-WellFormed = record {
  ids = (refl, tt);
  rows = (record { role = omega arith; edu_office = omega arith; school_name = omega arith }, tt);
  links = tt;
  pairs = tt;
}

pub user123-IsParam : IsParam user123
user123-IsParam = IsParam-of_test user123 (λ h. cc) refl

pub pin-IsParam : IsParam pin
pin-IsParam = IsParam-of_test pin (λ h. cc) refl

pub office-IsParam : IsParam office
office-IsParam = IsParam-of_test office (λ h. cc) refl

pub school-IsParam : IsParam school
school-IsParam = IsParam-of_test school (λ h. cc) refl

pub b10-IsParam : IsParam b10
b10-IsParam = IsParam-of_test b10 (λ h. cc) refl

pub school_code-IsParam : IsParam school_code
school_code-IsParam = IsParam-of_test school_code (λ h. cc) refl
