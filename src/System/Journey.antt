-- ===== src/System/Journey.antt =====
-- A new user's way through the menus of client/menu.c and the server.
use school_meals.Base.{
  ℕ, ◌<◌, ◌≡◌, refl, ap, ◌∙◌, Bool, true, false, Option, some, List, [], ◌∷◌, ◌++◌, ◌>>=◌, ◌==◌,
  any, length, length-append, arith,
}
use school_meals.CString.{Bytes, bytes, bytes_eq, strtok}
use school_meals.CString.Tokens.{IsField}
use school_meals.Protocol.{
  buffer_size, decimal, atoi, cmd_delimiter, resp_success, response, role_general,
}
use school_meals.Protocol.Requests.{joined, register_request, login_request}
use school_meals.Db.{Engine}
use school_meals.Db.Tables.{has_id}
use school_meals.Db.Laws.{Sqlite}
use school_meals.Db.WellFormed.{WellFormed}
use school_meals.Neis.{MealService, codes, HasPlainCodes}
use school_meals.Server.Dispatch.{serve}
use school_meals.Server.Wire.{IsParam}
use school_meals.Input.{is_valid_id, is_valid_password}
use school_meals.Input.Accepted.{is_valid_id-IsStorable, is_valid_password-IsStorable}
use school_meals.Client.Network.{Outcome, answered}
use school_meals.Client.Handlers.{
  Session, is_valid_edu_office, handle_login, handle_register, parse_response, registered,
}
use school_meals.Client.Login.{value_and_session, session_of}
use school_meals.Client.LoginMenu.{register_prompts, register_account, handle_login_menu_input}
use school_meals.Client.LoginMenu.Returns.{
  fgets-fits, ask_again-first, valid_id-fits, valid_password-fits, register_prompts-lines,
}
use school_meals.Client.App.{again, client_round, no_session}
use school_meals.Client.Journey.{storable_then_session}
use school_meals.System.{outcome_of_reply, system_round}

abbrev registered_text : Bytes
registered_text = response resp_success (bytes "회원가입 성공") []

abbrev shown : Bool × Bytes
shown = (true, bytes "🎉 회원가입이 성공적으로 완료되었습니다!\n이제 로그인하여 서비스를 이용해보세요.")

registered-ok : registered (parse_response registered_text) ≡ some shown
unfolding response parse_response strtok bytes_eq decimal atoi
registered-ok = refl

-- The answer to a registration, in the client
handle_register-ok :
    (edu_office : Bytes)
    → is_valid_edu_office edu_office ≡ true
    → handle_register edu_office (answered registered_text) ≡ some shown
unfolding handle_register
handle_register-ok edu_office h = rw h registered-ok

register_request-fits :
    (id pw office school : Bytes)
    → is_valid_id id ≡ true
    → is_valid_password pw ≡ true
    → length office < 49
    → length school < 49
    → length (joined (bytes "REGISTER_GENERAL" ∷ id ∷ pw ∷ office ∷ school ∷ [])) < buffer_size
register_request-fits id pw office school hi hp fo fs = omega (
  arith,
  valid_id-fits id hi,
  valid_password-fits pw hp,
  length-append {0} id (b'/' ∷ b'/' ∷ (pw ++ b'/' ∷ b'/' ∷ (office ++ b'/' ∷ b'/' ∷ school))),
  length-append {0} pw (b'/' ∷ b'/' ∷ (office ++ b'/' ∷ b'/' ∷ school)),
  length-append {0} office (b'/' ∷ b'/' ∷ school),
)

register_prompts-typed :
    (id pw office school : Bytes)
    → is_valid_id id ≡ true
    → is_valid_password pw ≡ true
    → length office < 49
    → length school < 49
    → register_prompts (id ∷ pw ∷ office ∷ school ∷ [])
      ≡ some (record { id = id; pw = pw; edu_office = office; school_name = school }, [])
register_prompts-typed id pw office school hi hp fo fs =
    register_prompts-lines _ _ _ id pw
      (ask_again-first is_valid_id 20 id _ (valid_id-fits id hi) hi)
      (ask_again-first is_valid_password 20 pw _ (valid_password-fits pw hp) hp)
    ∙ rw (fgets-fits 50 office (school ∷ []) fo, fgets-fits 50 school [] fs) refl

module _ (answer : Bytes → Outcome) where
  register_choice :
      (id pw office school : Bytes)
      → is_valid_id id ≡ true
      → is_valid_password pw ≡ true
      → is_valid_edu_office office ≡ true
      → length office < 49
      → length school < 49
      → answer (register_request id pw office school) ≡ answered registered_text
      → handle_login_menu_input answer no_session 2 (id ∷ pw ∷ office ∷ school ∷ [])
        ≡ some ((no_session, some (register_request id pw office school)), [])
  unfolding handle_login_menu_input register_prompts
  register_choice id pw office school hi hp ho fo fs h =
      ap (λ o. o >>= register_account answer no_session)
        (register_prompts-typed id pw office school hi hp fo fs)
      ∙ rw (h, handle_register-ok office ho, ho) refl

  log_in_choice :
      (id pw : Bytes) (text : Bytes) (session : Session)
      → length id < 19
      → length pw < 19
      → answer (login_request id pw) ≡ answered text
      → value_and_session (handle_login no_session id (answered text)) ≡ (true, session)
      → handle_login_menu_input answer no_session 1 (id ∷ pw ∷ [])
        ≡ some ((session, some (login_request id pw)), [])
  unfolding handle_login_menu_input
  log_in_choice id pw text session fi fp h same =
      rw (fgets-fits 20 id (pw ∷ []) fi, fgets-fits 20 pw [] fp, h)
        (ap (λ (r : Bool × Session). some ((r.1, some (login_request id pw)), [])) same)

client_round-login_menu :
    (choice sub_choice : ℕ) (lines : List Bytes) (answer : Bytes → Outcome) (session : Session)
    (request : Option Bytes)
    → (choice == 3) ≡ false
    → handle_login_menu_input answer no_session choice lines ≡ some ((session, request), [])
    → client_round no_session
        (record { choice = choice; sub_choice = sub_choice; lines = lines; answer = answer })
      ≡ some (again session request)
unfolding client_round
client_round-login_menu choice sub_choice lines answer session request not_3 h = rw (not_3, h) refl

module _ (e : Engine) (net : MealService) (db db' : e.Db) where
  -- A round that sends a request, which the server answers
  system_round-request :
      (session session' : Session) (choice sub_choice : ℕ) (lines : List Bytes) (request : Bytes)
      (sent : List Bytes)
      → client_round session (record {
        choice = choice;
        sub_choice = sub_choice;
        lines = lines;
        answer = λ r. outcome_of_reply (serve e net db r);
      })
        ≡ some (again session' (some request))
      → serve e net db request ≡ some (db', sent)
      → system_round e net db session choice sub_choice lines
        ≡ some (db', again session' (some request))
  unfolding system_round
  system_round-request session session' choice sub_choice lines request sent h answered' =
      rw (h, answered') refl

module _ (e : Engine) (q : Sqlite e) (net : MealService) (hn : HasPlainCodes net) (db : e.Db) where
  -- A user who chooses the registration in the login menu, for a new id, and types an acceptable id
  -- and password, the name of an office, and a school whose codes are known, not empty and without
  -- '/', and who then chooses the login with the same id and password, is logged in: the globals of
  -- the client hold the id, the codes and the role GENERAL.
  pub register_then_log_in :
      (net' : MealService) (sub_choice sub_choice' : ℕ) (id pw office school ec sc : Bytes)
      → WellFormed (q.view db)
      → is_valid_id id ≡ true
      → is_valid_password pw ≡ true
      → is_valid_edu_office office ≡ true
      → IsParam office
      → IsParam school
      → length office < 49
      → length school < 49
      → net.resolve_school_code school ≡ codes ec sc
      → IsField cmd_delimiter ec
      → IsField cmd_delimiter sc
      → any (has_id id) (q.view db).users ≡ false
      → (db' : e.Db) × (system_round e net db no_session 2 sub_choice
            (id ∷ pw ∷ office ∷ school ∷ [])
          ≡ some (db', again no_session (some (register_request id pw office school))))
        × (system_round e net' db' no_session 1 sub_choice' (id ∷ pw ∷ [])
            ≡ some (
              db',
              again (session_of id ec sc (bytes role_general)) (some (login_request id pw)),
            ))
  register_then_log_in net' sub sub' id pw office school ec sc wf hi hp ho po ps fo fs known fe fsc
        new =
      let (db', reply, registered_by, logged_in, session) =
        storable_then_session e q net hn db net' no_session id pw office school ec sc wf
          (is_valid_id-IsStorable id hi) (is_valid_password-IsStorable pw hp) po ps
          (register_request-fits id pw office school hi hp fo fs) known fe fsc new in
      (
        db',
        system_round-request e net db db' no_session no_session 2 sub _ _ _
            (client_round-login_menu 2 sub _ _ no_session _ refl (
              register_choice _ id pw office school hi hp ho fo fs
                (ap outcome_of_reply registered_by)))
            registered_by,
        system_round-request e net' db' db' no_session (session_of id ec sc (bytes role_general)) 1
            sub' _ _ _
            (client_round-login_menu 1 sub' _ _ _ _ refl (
              log_in_choice _ id pw reply _ (valid_id-fits id hi) (valid_password-fits pw hp)
                (ap outcome_of_reply logged_in) session))
            logged_in,
      )
