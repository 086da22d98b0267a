-- ===== src/Server/Meal.antt =====
-- The meal queries of handle_client.
use school_meals.Base.{Bool, false, Option, none, some, [], ◌∷◌, ◌>>=◌, if◌then◌else◌}
use school_meals.CString.{Bytes, strncpy, isdigit}
use school_meals.Protocol.{resp_success, resp_error}
use school_meals.Neis.{MealService, Lookup, missing, codes, unterminated}
use school_meals.Server.Request.{Params, Reply, say, need, parse_period}

-- school_name[0] >= '0' && school_name[0] <= '9'
abbrev pub is_code : Bytes → Bool
is_code [] = false
is_code (c ∷ s) = isdigit c

module _ (net : MealService) where
  open net use {resolve_school_code, get_meal_from_neis, get_meals_period_from_neis}

  -- A school name that begins with a digit is a code already; the office is taken as it is.
  unfoldable pub school_codes : Bytes → Bytes → Lookup
  school_codes edu_office school_name =
      if is_code school_name
      then codes (strncpy 9 edu_office) (strncpy 19 school_name)
      else resolve_school_code school_name

  module _ {Db : Type 0} where
    abbrev pub meal_found : Db → Option Bytes → Reply Db
    meal_found db none = say db resp_error "급식 정보를 찾을 수 없습니다" []
    meal_found db (some meal) = say db resp_success "급식 정보 조회 성공" meal

    unfoldable pub meal_with : Db → Bytes → Lookup → Reply Db
    meal_with db date missing = say db resp_error "학교 정보를 찾을 수 없습니다." []
    meal_with db date (codes edu_code school_code) = do
      meal ← get_meal_from_neis edu_code school_code date
      meal_found db meal
    meal_with db date unterminated = none

    unfoldable pub get_meal : Db → Params → Reply Db
    unfolding meal_with school_codes
    get_meal db p = need db p.edu_office λ edu_office. need db p.school_name λ school_name.
        need db p.date λ date. meal_with db date (school_codes edu_office school_name)

    abbrev pub meals_found : Db → Option Bytes → Reply Db
    meals_found db none = say db resp_error "급식 정보를 찾을 수 없습니다" []
    meals_found db (some meals) = say db resp_success "기간 급식 정보 조회 성공" meals

    unfoldable pub period_with : Db → Bytes → Bytes → Lookup → Reply Db
    period_with db start_date end_date missing = say db resp_error "학교 정보를 찾을 수 없습니다." []
    period_with db start_date end_date (codes edu_code school_code) = do
      meals ← get_meals_period_from_neis edu_code school_code start_date end_date
      meals_found db meals
    period_with db start_date end_date unterminated = none

    unfoldable pub meals_between : Db → Bytes → Bytes → Option (Bytes × Bytes) → Reply Db
    unfolding period_with school_codes
    meals_between db edu_office school_name none = say db resp_error "잘못된 날짜 형식입니다" []
    meals_between db edu_office school_name (some (start_date, end_date)) =
        period_with db start_date end_date (school_codes edu_office school_name)

    unfoldable pub get_multi_meal : Db → Params → Reply Db
    unfolding meals_between
    get_multi_meal db p = need db p.edu_office λ edu_office. need db p.school_name λ school_name.
        need db p.period λ period. meals_between db edu_office school_name (parse_period period)
