-- ===== src/Client/Network.antt =====
-- client/network.c: sending all of a request, and receiving a response. What the sockets do is a
-- list of events; a list that ends too early makes `none`, a call that has not returned.
pub mod Bounds
use school_meals.Base.{
  ℕ, zero, suc, ◌-◌, Bool, true, false, ◌&&◌, ◌||◌, Option, none, some, List, [], ◌∷◌, ◌++◌, ltb,
  ◌==◌, if◌then◌else◌, length, take, ◌>>=◌,
}
use school_meals.CString.{Bytes, bytes, cut_at_zero}
use school_meals.Protocol.{buffer_size}

-- One round of select and send: a timeout or an error, or the number of bytes that were taken.
pub data SendEvent : Type 0 where
  send_failed : SendEvent
  sent : ℕ → SendEvent

-- The loop while total_sent < len, on the number of bytes that are left.
unfoldable pub send_data : List SendEvent → ℕ → Option Bool
send_data events zero = some true
send_data [] (suc left) = none
send_data (send_failed ∷ events) (suc left) = some false
send_data (sent n ∷ events) (suc left) = send_data events (suc left - n)

-- An error, the end of the connection (also nothing received), or some bytes
pub data RecvEvent : Type 0 where
  recv_failed : RecvEvent
  closed : RecvEvent
  received : Bytes → RecvEvent

-- strstr(buffer, CMD_DELIMITER) != NULL
unfoldable pub has_delimiter : Bytes → Bool
has_delimiter [] = false
has_delimiter (c ∷ []) = false
has_delimiter (c ∷ d ∷ s) = (c == b'/' && d == b'/') || has_delimiter (d ∷ s)

-- true or false, and the text in `response`
abbrev pub Response : Type 0
Response = Bool × Bytes

-- After the loop: strcpy of the buffer, if anything was received
abbrev pub taken_over : Bytes → Response
taken_over [] = (false, bytes "서버로부터 응답 없음")
taken_over (c ∷ buffer) = (true, cut_at_zero (c ∷ buffer))

-- The loop over recv; recv is asked for the free part of the buffer only.
unfoldable pub receive_loop : List RecvEvent → Bytes → Option Response
unfolding has_delimiter cut_at_zero
receive_loop [] buffer =
    if ltb (length buffer) (buffer_size - 1) then none else some (taken_over buffer)
receive_loop (recv_failed ∷ events) buffer =
    if ltb (length buffer) (buffer_size - 1)
    then some (false, bytes "서버 통신 오류")
    else some (taken_over buffer)
receive_loop (closed ∷ events) buffer = some (taken_over buffer)
receive_loop (received [] ∷ events) buffer = some (taken_over buffer)
receive_loop (received (c ∷ chunk) ∷ events) buffer =
    let buffer' = buffer ++ take (buffer_size - length buffer - 1) (c ∷ chunk) in
    let more = receive_loop events buffer' in
    if ltb (length buffer) (buffer_size - 1)
    then (if has_delimiter (cut_at_zero buffer') then some (taken_over buffer') else more)
    else some (taken_over buffer)

-- receive_response; `ready` is what select said.
unfoldable pub receive_response : Bool → List RecvEvent → Option Response
unfolding receive_loop
receive_response false events = some (false, bytes "서버 응답 시간 초과")
receive_response true events = receive_loop events []

-- The last byte that was received is zero.
unfoldable pub ends_in_zero : Bytes → Bool
ends_in_zero [] = false
ends_in_zero (c ∷ []) = c == 0
ends_in_zero (c ∷ d ∷ s) = ends_in_zero (d ∷ s)

-- receive_data, which nothing calls: the value, and the bytes before the zero that it writes
unfoldable pub receive_data : ℕ → List RecvEvent → Bytes → Option Response
unfolding ends_in_zero
receive_data size [] buffer = if ltb (length buffer) (size - 1) then none else some (true, buffer)
receive_data size (recv_failed ∷ events) buffer =
    if ltb (length buffer) (size - 1) then some (false, buffer) else some (true, buffer)
receive_data size (closed ∷ events) buffer = some (true, buffer)
receive_data size (received [] ∷ events) buffer = some (true, buffer)
receive_data size (received (c ∷ chunk) ∷ events) buffer =
    let buffer' = buffer ++ take (size - length buffer - 1) (c ∷ chunk) in
    let more = receive_data size events buffer' in
    if ltb (length buffer) (size - 1)
    then (if ends_in_zero buffer' then some (true, buffer') else more)
    else some (true, buffer)

-- What a handler gets from one exchange with the server.
pub data Outcome : Type 0 where
  not_sent : Outcome
  not_received : Bytes → Outcome
  answered : Bytes → Outcome

abbrev outcome_of : Response → Outcome
outcome_of (true, text) = answered text
outcome_of (false, text) = not_received text

abbrev after_send : Bool → Option Response → Option Outcome
after_send false response = some not_sent
after_send true response = do r ← response; some (outcome_of r)

-- send_data of the request and, if it was sent, receive_response
unfoldable pub exchange : List SendEvent → Bool → List RecvEvent → Bytes → Option Outcome
unfolding send_data receive_response
exchange sends ready events request = do
  done ← send_data sends (length request)
  after_send done (receive_response ready events)
