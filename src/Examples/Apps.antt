-- ===== src/Examples/Apps.antt =====
-- Runs of the client's loop, alone and in front of the server.
use school_meals.Base.{ℕ, arith, ◌≡◌, refl, ◌⊎◌, true, false, none, some, List, [], ◌∷◌, any, All}
use school_meals.CString.{Bytes, bytes, bytes_eq, strtok}
use school_meals.Protocol.{role_general, atoi}
use school_meals.Protocol.Requests.{register_request, login_request}
use school_meals.Db.Tables.{Tables, has_id}
use school_meals.Db.WellFormed.{WellFormed}
use school_meals.Db.TableEngine.{table_engine, table_sqlite}
use school_meals.Input.{is_valid_id, is_valid_password}
use school_meals.Client.Network.{not_sent, answered}
use school_meals.Client.Handlers.{Session, is_valid_edu_office, store_fields, handle_login}
use school_meals.Client.Login.{session_of}
use school_meals.Client.LoginMenu.{Account, register_prompts, handle_login_menu_input}
use school_meals.Client.LoginMenu.Returns.{register_prompts-returns}
use school_meals.Client.App.{
  Keys, again, parent_screen, screen, client_round, client_main, no_session,
}
use school_meals.Client.App.Rounds.{IsLogin, IsLogout, client_round-session, client_main-parent}
use school_meals.Client.App.Fits.{Fits}
use school_meals.System.{system_round, connected, acted, started, next}
use school_meals.System.Invariant.{Reachable-WellFormed}
use school_meals.System.Journey.{register_then_log_in}
use school_meals.Examples.Data.{
  user123, pin, office, school, b10, school_code, one_row, one_row-WellFormed, service,
  service-HasPlainCodes, office-IsParam, school-IsParam, b10-IsParam, school_code-IsParam,
}

id-ok : is_valid_id user123 ≡ true
unfolding is_valid_id
id-ok = refl

pin-ok : is_valid_password pin ≡ true
unfolding is_valid_password
pin-ok = refl

register_prompts-returns_example :
    (account : Account) × (left : List Bytes) × (register_prompts
        (bytes "x" ∷ user123 ∷ bytes "12" ∷ pin ∷ office ∷ school ∷ [])
      ≡ some (account, left))
    × (is_valid_id account.id ≡ true)
    × (is_valid_password account.pw ≡ true)
register_prompts-returns_example =
    register_prompts-returns (bytes "x" ∷ []) (bytes "12" ∷ []) (office ∷ school ∷ []) user123 pin
      id-ok pin-ok (omega arith)

office-ok : is_valid_edu_office office ≡ true
unfolding is_valid_edu_office bytes_eq
office-ok = refl

user123-new : any (has_id user123) one_row.users ≡ false
unfolding bytes_eq
user123-new = refl

register_then_log_in_example :
    (db' : Tables) × (system_round table_engine service one_row no_session 2 0
        (user123 ∷ pin ∷ office ∷ school ∷ [])
      ≡ some (db', again no_session (some (register_request user123 pin office school))))
    × (system_round table_engine service db' no_session 1 0 (user123 ∷ pin ∷ [])
        ≡ some (
          db',
          again
              (session_of user123 b10 school_code (bytes role_general))
              (some (login_request user123 pin)),
        ))
unfolding table_sqlite
register_then_log_in_example =
    register_then_log_in table_engine table_sqlite service service-HasPlainCodes one_row service 0 0
      user123 pin office school b10 school_code one_row-WellFormed id-ok pin-ok office-ok
      office-IsParam school-IsParam (omega arith) (omega arith) refl b10-IsParam.field
      school_code-IsParam.field user123-new

-- The choice 7, which no menu has
idle :
    system_round table_engine service one_row no_session 7 0 []
    ≡ some (one_row, again no_session none)
unfolding system_round client_round handle_login_menu_input
idle = refl

Reachable-WellFormed_example : WellFormed one_row × All Fits (no_session ∷ no_session ∷ [])
unfolding table_sqlite
Reachable-WellFormed_example =
    Reachable-WellFormed table_engine table_sqlite one_row (one_row, no_session ∷ no_session ∷ [])
      one_row-WellFormed
      (next (next (next started connected) connected) (
        acted (no_session ∷ []) [] no_session no_session service 7 0 [] none service-HasPlainCodes
          idle))

abbrev parent : Session
parent = session_of user123 b10 school_code (bytes "PARENT")

abbrev press : ℕ → ℕ → Keys
press choice sub_choice = record {
  choice = choice;
  sub_choice = sub_choice;
  lines = [];
  answer = λ request. not_sent;
}

parent-screen : screen parent ≡ parent_screen
unfolding bytes_eq
parent-screen = refl

client_main-parent_example :
    client_main parent (press 4 0 ∷ press 1 0 ∷ []) ≡ some (again parent none)
client_main-parent_example = client_main-parent parent (press 4 0 ∷ press 1 0 ∷ []) parent-screen

abbrev logging_in : Keys
logging_in = record {
  choice = 1;
  sub_choice = 0;
  lines = user123 ∷ pin ∷ [];
  answer = λ request. answered (bytes "1//로그인 성공//B10//7010569//GENERAL");
}

logged_in :
    client_round no_session logging_in
    ≡ some (
        again
          (session_of user123 b10 school_code (bytes "GENERAL"))
          (some (login_request user123 pin)))
unfolding client_round handle_login_menu_input handle_login store_fields bytes_eq strtok atoi
logged_in = refl

client_round-session_example :
    (session_of user123 b10 school_code (bytes "GENERAL") ≡ no_session)
    ⊎ (IsLogin
          (screen no_session)
          no_session
          logging_in
          (session_of user123 b10 school_code (bytes "GENERAL"))
        ⊎ IsLogout
            (screen no_session)
            logging_in
            (session_of user123 b10 school_code (bytes "GENERAL")))
client_round-session_example =
    client_round-session no_session (session_of user123 b10 school_code (bytes "GENERAL"))
      logging_in (some (login_request user123 pin)) logged_in
