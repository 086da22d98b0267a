-- ===== src/Examples/Sessions.antt =====
-- Registrations, updates and logins over one row of users.
use school_meals.Base.{◌≡◌, refl, false, some, [], ◌∷◌, any, arith}
use school_meals.CString.{Bytes, bytes, bytes_eq, snprintf, printed}
use school_meals.CString.Tokens.{Lacks-of_test}
use school_meals.Protocol.{cmd_delimiter, response, resp_success, role_general}
use school_meals.Protocol.Requests.{login_request, register_request}
use school_meals.Db.Tables.{Tables, has_id}
use school_meals.Db.TableEngine.{table_engine, table_sqlite}
use school_meals.Server.Dispatch.{serve}
use school_meals.Server.Sessions.{register_then_login}
use school_meals.Input.{is_valid_id, is_valid_password}
use school_meals.Input.Prompts.{ask, get_id_input, get_password_input}
use school_meals.Examples.Data.{
  user123, pin, office, school, b10, school_code, old_user, one_row, one_row-WellFormed, service,
  service-HasPlainCodes, user123-IsParam, pin-IsParam, office-IsParam, school-IsParam,
}

abbrev registered : Bytes
registered = response resp_success (bytes "회원가입 성공") []

abbrev general_login : Bytes
general_login = response resp_success (bytes "로그인 성공") (
    snprintf 256
      (printed (b10 ∷ cmd_delimiter ∷ school_code ∷ cmd_delimiter ∷ bytes role_general ∷ [])))

user123-new : any (has_id user123) one_row.users ≡ false
unfolding bytes_eq
user123-new = refl

register_then_login_example :
    (db' : Tables) × (serve table_engine service one_row
        (register_request user123 pin office school)
      ≡ some (db', registered ∷ []))
    × (serve table_engine service db' (login_request user123 pin) ≡ some (db', general_login ∷ []))
unfolding table_sqlite
register_then_login_example =
    register_then_login table_engine table_sqlite service service-HasPlainCodes one_row service
      user123 pin office school b10 school_code one_row-WellFormed user123-IsParam pin-IsParam
      office-IsParam school-IsParam (omega arith) refl (Lacks-of_test (b'\'' ∷ []) user123 refl)
      (Lacks-of_test (b'\'' ∷ []) pin refl) (omega arith) (omega arith) user123-new

typed_user123 : get_id_input (user123 ∷ []) ≡ some (user123, [])
unfolding get_id_input ask is_valid_id
typed_user123 = refl

typed_1234 : get_password_input (pin ∷ []) ≡ some (pin, [])
unfolding get_password_input ask is_valid_password
typed_1234 = refl

abbrev old1 : Bytes
old1 = bytes "old1"

-- An id of 19 bytes that is taken, and one of 20 bytes that begins with it.
abbrev nineteen : Bytes
nineteen = bytes "abcdefghijklmnopqrs"

abbrev twenty : Bytes
twenty = bytes "abcdefghijklmnopqrst"

abbrev long_row : Tables
long_row = record one_row { users = record old_user { id = nineteen } ∷ [] }

abbrev june_21 : Bytes
june_21 = bytes "20240621"
