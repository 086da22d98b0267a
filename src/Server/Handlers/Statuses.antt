-- ===== src/Server/Handlers/Statuses.antt =====
-- server/server_handler.c: what becomes of the statuses that its handlers print with %s.
use school_meals.Base.{
  ◌≡◌, refl, String, Option, none, some, Bool, true, false, not, ◌>>=◌, if◌then◌else◌,
}
use school_meals.CString.{Bytes}
use school_meals.Db.{Engine, UserBuffer, verify_user, get_user, is_user_exists, add_user}
use school_meals.Neis.{MealService, Lookup, missing, codes, unterminated}
use school_meals.Server.Handlers.{
  is_valid_id, is_valid_password, sprintf, parent_of, parent_added, login_found, menu_found,
  handle_meal, handle_multi_meal, handle_other_meal, handle_multi_other_meal, handle_quit,
  handle_register_parent, handle_login, other_meal_with, multi_other_meal_with,
}

bind-none :
    {A B : Type 0} (o : Option A) (f : A → Option B) → ((x : A) → f x ≡ none) → (o >>= f) ≡ none
bind-none none f h = refl
bind-none (some x) f h = h x

branches : {A : Type 0} {x y z : A} (b : Bool) → x ≡ z → y ≡ z → (if b then x else y) ≡ z
branches true p q = p
branches false p q = q

module _ {Db : Type 0} where
  parent_added-none : (r : Bool × Db) → parent_added r ≡ none
  unfolding sprintf
  parent_added-none (true, db) = refl
  parent_added-none (false, db) = refl

  login_found-none : (db : Db) (user : Option UserBuffer) → login_found db user ≡ none
  unfolding sprintf
  login_found-none db none = refl
  login_found-none db (some user) =
      bind-none user.edu_office _
        λ a. bind-none user.school_name _ λ b. bind-none user.role _ λ c. refl

  menu_found-none :
      (db : Db) (command message : String) (meals : Option (Option Bytes))
      → (meals >>= menu_found db command message) ≡ none
  unfolding sprintf
  menu_found-none db command message none = refl
  menu_found-none db command message (some none) = refl
  menu_found-none db command message (some (some meal)) = refl

abbrev not_found : String
not_found = "급식 정보를 찾을 수 없습니다"

abbrev too_long : String
too_long = "조회 기간은 최대 7일까지입니다"

module _ {Db : Type 0} (net : MealService) (db : Db) where
  other_meal_with-none : (date : Bytes) (l : Lookup) → other_meal_with net db date l ≡ none
  unfolding sprintf
  other_meal_with-none date missing = refl
  other_meal_with-none date (codes edu_code school_code) =
      menu_found-none db "//OTHER_MEAL//" not_found
        (net.get_meal_from_neis edu_code school_code date)
  other_meal_with-none date unterminated = refl

  multi_other_meal_with-none :
      (start_date end_date : Bytes) (l : Lookup)
      → multi_other_meal_with net db start_date end_date l ≡ none
  unfolding sprintf
  multi_other_meal_with-none start_date end_date missing = refl
  multi_other_meal_with-none start_date end_date (codes edu_code school_code) =
      menu_found-none db "//MULTI_OTHER_MEAL//" too_long
        (net.get_meals_period_from_neis edu_code school_code start_date end_date)
  multi_other_meal_with-none start_date end_date unterminated = refl

module _ (e : Engine) (net : MealService) where
  handle_register_parent-none :
      (db : e.Db) (id pw : Bytes) → handle_register_parent e db id pw ≡ none
  unfolding handle_register_parent sprintf
  handle_register_parent-none db id pw = branches (not (is_valid_id id)) refl (
      branches (not (is_valid_password pw)) refl (
        branches (is_user_exists e db id) refl
          (parent_added-none (add_user e db (parent_of id pw)))))

  handle_login-none : (db : e.Db) (id pw : Bytes) → handle_login e db id pw ≡ none
  unfolding handle_login sprintf
  handle_login-none db id pw =
      branches (verify_user e db id pw)
        (bind-none (get_user e false db id) _ λ user. login_found-none db user) refl

  -- Each of the seven handlers prints a number with %s on every path on which it would send, so
  -- none of them ever sends a response, whatever the tables, the meal service and the texts are.
  handlers_silent :
      (db : e.Db) (a b c d : Bytes)
      → (handle_register_parent e db a b ≡ none)
        × (handle_login e db a b ≡ none)
        × (handle_meal net db a b c ≡ none)
        × (handle_multi_meal net db a b c d ≡ none)
        × (handle_other_meal net db a b c ≡ none)
        × (handle_multi_other_meal net db a b c d ≡ none)
        × (handle_quit db ≡ none)
  unfolding handle_meal handle_multi_meal handle_other_meal handle_multi_other_meal handle_quit
      sprintf
  handlers_silent db a b c d = (
    handle_register_parent-none db a b,
    handle_login-none db a b,
    menu_found-none db "//MEAL//" not_found (net.get_meal_from_neis a b c),
    menu_found-none db "//MULTI_MEAL//" too_long (net.get_meals_period_from_neis a b c d),
    other_meal_with-none net db c (net.resolve_school_code b),
    multi_other_meal_with-none net db c d (net.resolve_school_code b),
    refl,
  )
