-- ===== src/Client/Journey.antt =====
-- A user's way through the client and the server: the prompts, the registration and the login.
use school_meals.Base.{
  ◌<◌, ◌≤◌, ◌≡◌, refl, ◌∙◌, ap, true, false, some, List, [], ◌∷◌, any, length, length-append,
  take-eq_self, arith,
}
use school_meals.CString.{Bytes, bytes, printed, snprintf}
use school_meals.CString.Tokens.{IsField}
use school_meals.Protocol.{buffer_size, cmd_delimiter, response, resp_success, role_general}
use school_meals.Protocol.Requests.{joined, register_request, login_request}
use school_meals.Db.{Engine}
use school_meals.Db.Tables.{has_id}
use school_meals.Db.Laws.{Sqlite}
use school_meals.Db.WellFormed.{WellFormed}
use school_meals.Neis.{MealService, codes, HasPlainCodes}
use school_meals.Server.Dispatch.{serve}
use school_meals.Server.Wire.{IsParam, IsParam-of_test}
use school_meals.Server.Sessions.{register_then_login}
use school_meals.Input.Prompts.{get_id_input, get_password_input}
use school_meals.Input.Accepted.{IsStorable, get_id_input-IsStorable, get_password_input-IsStorable}
use school_meals.Client.Network.{answered}
use school_meals.Client.Handlers.{Session, handle_login}
use school_meals.Client.Login.{
  login_ok, login_message, value_and_session, session_of, handle_login-response,
}

login_data_fits :
    (ec sc : Bytes)
    → length ec < 10
    → length sc < 20
    → length (login_message ec sc (bytes role_general)) ≤ 200
login_data_fits ec sc he hs =
    omega (arith, length-append {0} ec _, length-append {0} sc (b'/' ∷ b'/' ∷ bytes role_general))

uncut :
    (ec sc : Bytes)
    → length ec < 10
    → length sc < 20
    → snprintf 256 (printed (ec ∷ cmd_delimiter ∷ sc ∷ cmd_delimiter ∷ bytes role_general ∷ []))
      ≡ login_message ec sc (bytes role_general)
uncut ec sc he hs =
    take-eq_self 255 (login_message ec sc (bytes role_general))
      (omega (arith, login_data_fits ec sc he hs))

module _ (e : Engine) (q : Sqlite e) (net : MealService) (hn : HasPlainCodes net) (db : e.Db) where
  pub storable_then_session :
      (net' : MealService) (session : Session) (id pw office school ec sc : Bytes)
      → WellFormed (q.view db)
      → IsStorable id
      → IsStorable pw
      → IsParam office
      → IsParam school
      → length (joined (bytes "REGISTER_GENERAL" ∷ id ∷ pw ∷ office ∷ school ∷ [])) < buffer_size
      → net.resolve_school_code school ≡ codes ec sc
      → IsField cmd_delimiter ec
      → IsField cmd_delimiter sc
      → any (has_id id) (q.view db).users ≡ false
      → (db' : e.Db) × (reply : Bytes) × (serve e net db (register_request id pw office school)
          ≡ some (db', response resp_success (bytes "회원가입 성공") [] ∷ []))
        × (serve e net' db' (login_request id pw) ≡ some (db', reply ∷ []))
        × (value_and_session (handle_login session id (answered reply))
            ≡ (true, session_of id ec sc (bytes role_general)))
  storable_then_session net' session id pw o school ec sc wf (pi, qi, si) (pp, qp, sp) po ps fits
        known fe fs new =
      let (db', registered, logged_in) =
        register_then_login e q net hn db net' id pw o school ec sc wf pi pp po ps fits known qi qp
          si sp new in
      let short = hn.short school ec sc known in
      (
        db',
        response resp_success login_ok (login_message ec sc (bytes role_general)),
        registered,
        logged_in
            ∙ ap (λ t. some (db', response resp_success login_ok t ∷ []))
                (uncut ec sc short.0 short.1),
        handle_login-response session id ec sc (bytes role_general) fe fs
            (IsParam-of_test (bytes role_general) (λ h. cc) refl).field
            (omega (arith, login_data_fits ec sc short.0 short.1)),
      )

  -- An id and a password that the prompts return, for an id that is new and a school whose codes are
  -- not empty and have no '/': the registration succeeds, the login after it succeeds, and the
  -- client that gets its answer holds the id, the codes and the role GENERAL.
  pub register_then_session :
      (net' : MealService) (session : Session) (ids pws ids' pws' : List Bytes)
      (id pw office school ec sc : Bytes)
      → WellFormed (q.view db)
      → get_id_input ids ≡ some (id, ids')
      → get_password_input pws ≡ some (pw, pws')
      → IsParam office
      → IsParam school
      → length (joined (bytes "REGISTER_GENERAL" ∷ id ∷ pw ∷ office ∷ school ∷ [])) < buffer_size
      → net.resolve_school_code school ≡ codes ec sc
      → IsField cmd_delimiter ec
      → IsField cmd_delimiter sc
      → any (has_id id) (q.view db).users ≡ false
      → (db' : e.Db) × (reply : Bytes) × (serve e net db (register_request id pw office school)
          ≡ some (db', response resp_success (bytes "회원가입 성공") [] ∷ []))
        × (serve e net' db' (login_request id pw) ≡ some (db', reply ∷ []))
        × (value_and_session (handle_login session id (answered reply))
            ≡ (true, session_of id ec sc (bytes role_general)))
  register_then_session net' session ids pws ids' pws' id pw o school ec sc wf typed typed' =
      storable_then_session net' session id pw o school ec sc wf
        (get_id_input-IsStorable ids id ids' typed)
        (get_password_input-IsStorable pws pw pws' typed')
