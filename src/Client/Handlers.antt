-- ===== src/Client/Handlers.antt =====
-- client/handlers.c: what a handler makes of the outcome of its exchange with the server. The
-- requests are those of Protocol.Requests.
use school_meals.Base.{
  ℕ, ◌-◌, String, Bool, true, false, ◌&&◌, Option, none, some, List, [], ◌∷◌, ◌++◌, if◌then◌else◌,
  any,
}
use school_meals.CString.{
  Bytes, bytes, bytes_eq, is_delim, skip_delims, token_of, strtok, strncpy, printed, snprintf,
}
use school_meals.Protocol.{
  ℤ, pos, atoi, int_eq, cmd_delimiter, buffer_size, resp_success, resp_error, resp_duplicate,
  max_id_len, max_role_len, max_edu_office_len, max_school_name_len,
}
use school_meals.Client.Network.{Outcome, not_sent, not_received, answered, Response}

-- The four global buffers of the client.
pub record Session : Type 0 where
  pub current_user_id : Bytes
  pub current_user_role : Bytes
  pub current_user_edu_office : Bytes
  pub current_user_school : Bytes

abbrev pub valid_edu_offices : List String
valid_edu_offices =
    "서울특별시교육청" ∷ "부산광역시교육청" ∷ "대구광역시교육청" ∷ "인천광역시교육청" ∷ "광주광역시교육청" ∷ "대전광역시교육청" ∷ "울산광역시교육청"
    ∷ "세종특별자치시교육청" ∷ "경기도교육청" ∷ "강원도교육청" ∷ "충청북도교육청" ∷ "충청남도교육청" ∷ "전라북도교육청" ∷ "전라남도교육청" ∷ "경상북도교육청"
    ∷ "경상남도교육청" ∷ "제주특별자치도교육청" ∷ []

unfoldable pub is_valid_edu_office : Bytes → Bool
is_valid_edu_office name = any (λ office. bytes_eq name (bytes office)) valid_edu_offices

unfoldable pub leading_delims : Bytes → Bytes
leading_delims [] = []
leading_delims (c ∷ s) = if is_delim cmd_delimiter c then c ∷ leading_delims s else []

-- The sign and its variation selector
abbrev warning_sign : Bytes
warning_sign = bytes "⚠" ++ 239 ∷ 184 ∷ 143 ∷ []

-- What the buffer reads as after strtok has put a zero behind its first token
unfoldable pub up_to_token : Bytes → Bytes
unfolding leading_delims skip_delims token_of
up_to_token text = leading_delims text ++ token_of cmd_delimiter (skip_delims cmd_delimiter text)

abbrev pub status_is : Bytes → ℕ → Bool
status_is status k = int_eq (atoi status) k

-- The fields behind the message of a login, and the session they make
abbrev pub fields_of : Session → Option Bytes → Option Bytes → Option Bytes → Bool × Session
fields_of session (some edu_office) (some school_name) (some role) = (
  true,
  record {
    current_user_id = session.current_user_id;
    current_user_role = strncpy (max_role_len - 1) role;
    current_user_edu_office = strncpy (max_edu_office_len - 1) edu_office;
    current_user_school = strncpy (max_school_name_len - 1) school_name;
  },
)
fields_of session edu_office school_name role = (false, session)

unfoldable pub store_fields : Session → Bytes → Bool × Session
store_fields session rest =
    let (message, rest) = strtok cmd_delimiter rest in
    let (edu_office, rest) = strtok cmd_delimiter rest in
    let (school_name, rest) = strtok cmd_delimiter rest in
    let (role, rest) = strtok cmd_delimiter rest in fields_of session edu_office school_name role

abbrev pub with_id : Session → Bytes → Session
with_id session id = record {
  current_user_id = strncpy (max_id_len - 1) id;
  current_user_role = session.current_user_role;
  current_user_edu_office = session.current_user_edu_office;
  current_user_school = session.current_user_school;
}

-- current_user_id is written before the other fields are looked at.
abbrev pub stored : Session → Bytes → Option Bytes × Bytes → Bool × Session
stored session id (none, rest) = (false, session)
stored session id (some status, rest) =
    if status_is status resp_success
    then store_fields (with_id session id) rest
    else (false, session)

-- handle_login: the value, the text in `response`, and the session
unfoldable pub handle_login : Session → Bytes → Outcome → Bool × Bytes × Session
unfolding store_fields up_to_token
handle_login session id not_sent = (false, bytes "서버 통신 오류", session)
handle_login session id (not_received text) = (false, bytes "서버 응답 수신 실패", session)
handle_login session id (answered text) =
    let (ok, session') = stored session id (strtok cmd_delimiter text) in
    (ok, up_to_token text, session')

abbrev pub handle_logout : Session → Session
handle_logout session = record {
  current_user_id = [];
  current_user_role = [];
  current_user_edu_office = [];
  current_user_school = [];
}

-- The status and the message of a response, where both are there
abbrev with_message : Bytes → Option Bytes → Option (Bytes × Bytes)
with_message status none = none
with_message status (some message) = some (status, message)

abbrev status_of : Option Bytes × Bytes → Option (Bytes × Bytes)
status_of (none, rest) = none
status_of (some status, rest) =
    let (message, rest') = strtok cmd_delimiter rest in with_message status message

unfoldable pub parse_response : Bytes → Option (Bytes × Bytes)
parse_response text = status_of (strtok cmd_delimiter text)

-- The last branch prints a text into `response` that holds the message itself: undefined, `none`.
abbrev pub registered : Option (Bytes × Bytes) → Option Response
registered none = some (false, bytes "❌ 서버 응답 형식이 잘못되었습니다.")
registered (some (status, message)) =
    if status_is status resp_success && bytes_eq message (bytes "회원가입 성공")
    then some (true, bytes "🎉 회원가입이 성공적으로 완료되었습니다!\n이제 로그인하여 서비스를 이용해보세요.")
    else if status_is status resp_error && bytes_eq message (bytes "중복된 아이디")
    then some (false, warning_sign ++ bytes " 입력한 아이디는 이미 사용 중입니다.\n다른 아이디를 입력해주세요.")
    else none

unfoldable pub handle_register : Bytes → Outcome → Option Response
unfolding is_valid_edu_office parse_response
handle_register edu_office outcome =
    if is_valid_edu_office edu_office
    then (elim outcome [
      | not_sent ↦ some (false, bytes "❌ 서버와의 통신 중 문제가 발생했습니다. 다시 시도해주세요.")
      | not_received text ↦ some (false, bytes "❌ 서버로부터 응답을 받지 못했습니다. 네트워크를 확인해주세요.")
      | answered text ↦ registered (parse_response text)
    ])
    else some (false, bytes "❌ 올바른 교육청 이름이 아닙니다.\n예시: 서울특별시교육청, 경기도교육청")

-- get_meal_from_neis and the three other queries
unfoldable pub meal_response : Outcome → Response
meal_response not_sent = (false, bytes "서버 통신 오류")
meal_response (not_received text) = (false, text)
meal_response (answered text) = (true, text)

-- The value, *status and the text in `message`
abbrev pub Report : Type 0
Report = Bool × ℤ × Bytes

abbrev pub added_user : Option (Bytes × Bytes) → Report
added_user none = (false, pos resp_error, bytes "서버 응답 파싱 오류")
added_user (some (status, msg)) =
    if status_is status resp_success && bytes_eq msg (bytes "회원가입 성공")
    then (true, atoi status, bytes "🎉 사용자가 성공적으로 추가되었습니다!")
    else if status_is status resp_duplicate
    then (false, atoi status, warning_sign ++ bytes " 입력한 아이디는 이미 사용 중입니다.")
    else (false, atoi status, snprintf buffer_size (printed (bytes "❌ 사용자 추가 실패: " ∷ msg ∷ [])))

unfoldable pub handle_add_user : Outcome → Report
unfolding parse_response
handle_add_user not_sent = (false, pos resp_error, bytes "서버 통신 오류")
handle_add_user (not_received text) = (false, pos resp_error, bytes "서버 응답 없음")
handle_add_user (answered text) = added_user (parse_response text)

abbrev pub updated_user : Option (Bytes × Bytes) → Report
updated_user none = (false, pos resp_error, bytes "서버 응답 파싱 오류")
updated_user (some (status, msg)) =
    (status_is status resp_success, atoi status, snprintf buffer_size msg)

unfoldable pub handle_update_user : Outcome → Report
unfolding parse_response
handle_update_user not_sent = (false, pos resp_error, bytes "서버 통신 오류")
handle_update_user (not_received text) = (false, pos resp_error, bytes "서버 응답 없음")
handle_update_user (answered text) = updated_user (parse_response text)

-- The message is copied down within the buffer that holds it, from its first byte on.
abbrev pub deleted_user : Option (Bytes × Bytes) → Response
deleted_user none = (false, bytes "서버 응답 파싱 오류")
deleted_user (some (status, msg)) = (bytes_eq status (bytes "1"), snprintf buffer_size msg)

unfoldable pub handle_delete_user : Outcome → Response
unfolding parse_response
handle_delete_user not_sent = (false, bytes "서버 통신 오류")
handle_delete_user (not_received text) = (false, bytes "서버 응답 없음")
handle_delete_user (answered text) = deleted_user (parse_response text)
