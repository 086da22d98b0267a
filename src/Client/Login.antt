-- ===== src/Client/Login.antt =====
-- handle_login of client/handlers.c on the responses that the server sends.
use school_meals.Base.{
  ◌-◌, ◌≤◌, ◌≡◌, ◌≢◌, refl, ◌∙◌, Bool, true, false, some, [], ◌∷◌, ◌++◌, length, arith,
  take-eq_self,
}
use school_meals.CString.{Bytes, bytes, strncpy}
use school_meals.CString.Tokens.{IsField, strtok-append, strtok-skip, strtok_last, strtok-nil}
use school_meals.Protocol.{
  decimal, atoi, skip_spaces, signed_digits, scan_digits, buffer_size, cmd_delimiter, max_id_len,
  max_edu_office_len, max_school_name_len, max_role_len, response,
}
use school_meals.Server.Wire.{IsParam-of_test}
use school_meals.Client.Network.{answered}
use school_meals.Client.Handlers.{
  Session, status_is, with_id, fields_of, store_fields, handle_login,
}

abbrev pub login_ok : Bytes
login_ok = bytes "로그인 성공"

abbrev pub login_message : Bytes → Bytes → Bytes → Bytes
login_message edu_office school_name role =
    edu_office ++ b'/' ∷ b'/' ∷ (school_name ++ b'/' ∷ b'/' ∷ role)

-- The session of a user who has logged in.
abbrev pub session_of : Bytes → Bytes → Bytes → Bytes → Session
session_of id edu_office school_name role = record {
  current_user_id = strncpy (max_id_len - 1) id;
  current_user_role = strncpy (max_role_len - 1) role;
  current_user_edu_office = strncpy (max_edu_office_len - 1) edu_office;
  current_user_school = strncpy (max_school_name_len - 1) school_name;
}

login_ok-IsField : IsField cmd_delimiter login_ok
login_ok-IsField = (IsParam-of_test login_ok (λ h. cc) refl).field

login_fields :
    (session : Session) (edu_office school_name role : Bytes)
    → IsField cmd_delimiter edu_office
    → IsField cmd_delimiter school_name
    → IsField cmd_delimiter role
    → store_fields session
        (b'/' ∷ (login_ok ++ cmd_delimiter ++ login_message edu_office school_name role))
      ≡ fields_of session (some edu_office) (some school_name) (some role)
unfolding store_fields
login_fields session edu_office school_name role ho hs hr = rw (
  strtok-skip cmd_delimiter b'/'
      (login_ok ++ cmd_delimiter ++ login_message edu_office school_name role) refl,
  strtok-append cmd_delimiter login_ok b'/' (b'/' ∷ login_message edu_office school_name role)
      login_ok-IsField refl,
  strtok-skip cmd_delimiter b'/' (login_message edu_office school_name role) refl,
  strtok-append cmd_delimiter edu_office b'/' (b'/' ∷ (school_name ++ b'/' ∷ b'/' ∷ role)) ho refl,
  strtok-skip cmd_delimiter b'/' (school_name ++ b'/' ∷ b'/' ∷ role) refl,
  strtok-append cmd_delimiter school_name b'/' (b'/' ∷ role) hs refl,
  strtok-skip cmd_delimiter b'/' role refl,
  strtok_last cmd_delimiter role hr,
)

-- An answer to a login, as handle_client puts it together, if it fits the buffer.
login_response-eq :
    (edu_office school_name role : Bytes)
    → edu_office ≢ []
    → length (login_message edu_office school_name role) ≤ 4000
    → response 1 login_ok (login_message edu_office school_name role)
      ≡ b'1'
        ∷ b'/'
        ∷ b'/'
        ∷ (login_ok ++ cmd_delimiter ++ login_message edu_office school_name role)
unfolding response decimal
login_response-eq [] school_name role h fits = absurd (h refl)
login_response-eq (c ∷ edu_office) school_name role h fits =
    take-eq_self (buffer_size - 1)
      (b'1'
        ∷ b'/'
        ∷ b'/'
        ∷ (login_ok ++ cmd_delimiter ++ login_message (c ∷ edu_office) school_name role))
      (omega arith)

abbrev pub value_and_session : Bool × Bytes × Session → Bool × Session
value_and_session (value, text, session) = (value, session)

status_one : status_is (b'1' ∷ []) 1 ≡ true
unfolding atoi skip_spaces signed_digits scan_digits
status_one = refl

handle_login-tokens :
    (session : Session) (id rest : Bytes)
    → value_and_session (handle_login session id (answered (b'1' ∷ b'/' ∷ rest)))
      ≡ store_fields (with_id session id) rest
unfolding handle_login
handle_login-tokens session id rest =
    rw (strtok-append cmd_delimiter (b'1' ∷ []) b'/' rest ((λ h. cc), (refl, tt)) refl, status_one)

-- On the answer of a successful login whose three fields are not empty, have no '/' and fit the
-- buffer, the client's handler returns true, and its four globals hold the id and the three fields.
pub handle_login-response :
    (session : Session) (id edu_office school_name role : Bytes)
    → IsField cmd_delimiter edu_office
    → IsField cmd_delimiter school_name
    → IsField cmd_delimiter role
    → length (login_message edu_office school_name role) ≤ 4000
    → value_and_session (
        handle_login session id
          (answered (response 1 login_ok (login_message edu_office school_name role))))
      ≡ (true, session_of id edu_office school_name role)
handle_login-response session id edu_office school_name role ho hs hr fits =
    rw (login_response-eq edu_office school_name role ho.0 fits) (
      handle_login-tokens session id _
      ∙ login_fields (with_id session id) edu_office school_name role ho hs hr)

login_response_no_office :
    (school_name role : Bytes)
    → length (login_message [] school_name role) ≤ 4000
    → response 1 login_ok (login_message [] school_name role)
      ≡ b'1' ∷ b'/' ∷ b'/' ∷ (login_ok ++ cmd_delimiter ++ login_message [] school_name role)
unfolding response decimal
login_response_no_office school_name role fits =
    take-eq_self (buffer_size - 1)
      (b'1' ∷ b'/' ∷ b'/' ∷ (login_ok ++ cmd_delimiter ++ login_message [] school_name role))
      (omega arith)

login_no_office :
    (session : Session) (school_name role : Bytes)
    → IsField cmd_delimiter school_name
    → IsField cmd_delimiter role
    → store_fields session (b'/' ∷ (login_ok ++ cmd_delimiter ++ login_message [] school_name role))
      ≡ (false, session)
unfolding store_fields
login_no_office session school_name role hs hr = rw (
  strtok-skip cmd_delimiter b'/' (login_ok ++ cmd_delimiter ++ login_message [] school_name role)
      refl,
  strtok-append cmd_delimiter login_ok b'/' (b'/' ∷ login_message [] school_name role)
      login_ok-IsField refl,
  strtok-skip cmd_delimiter b'/' (login_message [] school_name role) refl,
  strtok-skip cmd_delimiter b'/' (b'/' ∷ (school_name ++ b'/' ∷ b'/' ∷ role)) refl,
  strtok-skip cmd_delimiter b'/' (school_name ++ b'/' ∷ b'/' ∷ role) refl,
  strtok-append cmd_delimiter school_name b'/' (b'/' ∷ role) hs refl,
  strtok-skip cmd_delimiter b'/' role refl,
  strtok_last cmd_delimiter role hr,
  strtok-nil cmd_delimiter,
)

-- On the answer of a successful login whose office is empty, and whose other two fields are not
-- empty, have no '/' and fit the buffer, the handler returns false, and yet the client's id is the
-- one of the attempt.
pub handle_login_empty_office :
    (session : Session) (id school_name role : Bytes)
    → IsField cmd_delimiter school_name
    → IsField cmd_delimiter role
    → length (login_message [] school_name role) ≤ 4000
    → value_and_session (
        handle_login session id
          (answered (response 1 login_ok (login_message [] school_name role))))
      ≡ (false, with_id session id)
handle_login_empty_office session id school_name role hs hr fits =
    rw (login_response_no_office school_name role fits) (
      handle_login-tokens session id _
      ∙ login_no_office (with_id session id) school_name role hs hr)
