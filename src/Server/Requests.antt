-- ===== src/Server/Requests.antt =====
-- Each request of client/handlers.c, as handle_client serves it.
use school_meals.Base.{◌≡◌, ◌<◌, [], ◌∷◌, ◌++◌, length, length-append, arith}
use school_meals.CString.{Bytes, bytes, bytes_eq}
use school_meals.Protocol.{buffer_size, cmd_delimiter}
use school_meals.Protocol.Requests.{joined, login_request, register_request, update_request}
use school_meals.Db.{Engine}
use school_meals.Neis.{MealService}
use school_meals.Server.Account.{login, register, register_general, update, update_with, login_with}
use school_meals.Server.Dispatch.{dispatch, serve_params, serve}
use school_meals.Server.Wire.{
  IsParam, parse-login_request, parse-register_request, parse-update_request,
}

module _ (e : Engine) (net : MealService) (db : e.Db) where
  pub serve-login_request :
      (id pw : Bytes)
      → IsParam id
      → IsParam pw
      → length (joined (bytes "LOGIN" ∷ id ∷ pw ∷ [])) < buffer_size
      → serve e net db (login_request id pw) ≡ login_with e db id pw
  unfolding serve serve_params dispatch login bytes_eq
  serve-login_request id pw hi hp fits = rw (parse-login_request id pw hi hp fits)

  pub serve-register_request :
      (id pw office school : Bytes)
      → IsParam id
      → IsParam pw
      → IsParam office
      → IsParam school
      → length (joined (bytes "REGISTER_GENERAL" ∷ id ∷ pw ∷ office ∷ school ∷ [])) < buffer_size
      → serve e net db (register_request id pw office school)
        ≡ register_general e net db id pw school
  unfolding serve serve_params dispatch register bytes_eq
  serve-register_request id pw o s hi hp ho hs fits =
      rw (parse-register_request id pw o s hi hp ho hs fits)

  pub serve-update_request :
      (id pw office school : Bytes)
      → IsParam id
      → IsParam pw
      → IsParam office
      → IsParam school
      → length (joined (bytes "UPDATE" ∷ id ∷ pw ∷ office ∷ school ∷ [])) < buffer_size
      → serve e net db (update_request id pw office school)
        ≡ update_with e net db id pw (net.resolve_school_code school)
  unfolding serve serve_params dispatch update bytes_eq
  serve-update_request id pw o s hi hp ho hs fits =
      rw (parse-update_request id pw o s hi hp ho hs fits)

-- A short id and password make a request that fits.
pub login_fits :
    (id pw : Bytes)
    → length id < 20
    → length pw < 20
    → length (joined (bytes "LOGIN" ∷ id ∷ pw ∷ [])) < buffer_size
login_fits id pw hi hp = omega (arith, length-append {0} id (cmd_delimiter ++ pw))
