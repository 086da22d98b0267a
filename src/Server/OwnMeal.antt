-- ===== src/Server/OwnMeal.antt =====
-- The query of a user's own school: the client sends the codes that it got at the login.
use school_meals.Base.{
  ◌<◌, ◌≡◌, ◌∙◌, ap, true, [], ◌∷◌, ◌++◌, ◌>>=◌, length, length-append, take-eq_self, arith,
}
use school_meals.CString.{Bytes, bytes, bytes_eq}
use school_meals.Protocol.{buffer_size, cmd_delimiter}
use school_meals.Protocol.Requests.{joined, meal_request}
use school_meals.Db.{Engine}
use school_meals.Neis.{MealService, codes}
use school_meals.Input.{validate_date_format}
use school_meals.Input.Dates.{validate_date_format_iff}
use school_meals.Input.Accepted.{storable, every-isdigit}
use school_meals.Server.Meal.{is_code, school_codes, meal_found, meal_with, get_meal}
use school_meals.Server.Dispatch.{dispatch, serve_params, serve}
use school_meals.Server.Wire.{IsParam, parse-meal_request}

-- A text that the client accepts as a date is one parameter.
pub date-IsParam :
    (date : Bytes) → validate_date_format date ≡ true → IsParam date × (length date ≡ 8)
date-IsParam date h =
    let (eight, digits, _) = (validate_date_format_iff date).0 h in
    ((storable date (every-isdigit date digits) (omega arith) (omega arith)).0, eight)

meal_request-fits :
    (ec sc date : Bytes)
    → length ec < 10
    → length sc < 20
    → length date ≡ 8
    → length (joined (bytes "GET_MEAL" ∷ ec ∷ sc ∷ date ∷ [])) < buffer_size
meal_request-fits ec sc date he hs hd = omega (
  arith,
  length-append {0} ec (cmd_delimiter ++ (sc ++ (cmd_delimiter ++ date))),
  length-append {0} sc (cmd_delimiter ++ date),
)

module _ (e : Engine) (net : MealService) (db : e.Db) where
  serve-meal_request :
      (ec sc date : Bytes)
      → IsParam ec
      → IsParam sc
      → IsParam date
      → length (joined (bytes "GET_MEAL" ∷ ec ∷ sc ∷ date ∷ [])) < buffer_size
      → serve e net db (meal_request ec sc date) ≡ meal_with net db date (school_codes net ec sc)
  unfolding serve serve_params dispatch get_meal bytes_eq
  serve-meal_request ec sc date pe ps pd fits = rw (parse-meal_request ec sc date pe ps pd fits)

  -- A code begins with a digit, and short codes are not cut.
  pub school_codes-code :
      (ec sc : Bytes)
      → is_code sc ≡ true
      → length ec < 10
      → length sc < 20
      → school_codes net ec sc ≡ codes ec sc
  unfolding school_codes
  school_codes-code ec sc code he hs =
      rw (school_codes, code, take-eq_self 9 ec (omega arith), take-eq_self 19 sc (omega arith))

  -- The client's query for two codes as a login returns them, with a school code that begins with a
  -- digit, and for a date that the client accepts, asks the meal service once, for exactly these
  -- codes and this date, and sends the meal or the error.
  pub serve-own_meal_request :
      (ec sc date : Bytes)
      → IsParam ec
      → IsParam sc
      → is_code sc ≡ true
      → length ec < 10
      → length sc < 20
      → validate_date_format date ≡ true
      → serve e net db (meal_request ec sc date)
        ≡ (net.get_meal_from_neis ec sc date >>= meal_found net db)
  unfolding meal_with
  serve-own_meal_request ec sc date pe ps code he hs valid =
      let (pd, eight) = date-IsParam date valid in
      serve-meal_request ec sc date pe ps pd (meal_request-fits ec sc date he hs eight)
      ∙ ap (meal_with net db date) (school_codes-code ec sc code he hs)
