-- ===== src/Client/Network/Bounds.antt =====
-- The loops over recv in client/network.c do not write past their buffers.
use school_meals.Base.{
  ℕ, ◌-◌, ◌<◌, ◌≤◌, ◌≡◌, subst, Bool, true, false, Option, none, some, List, [], ◌∷◌, ◌++◌, ltb,
  if◌then◌else◌, length, length-append, length-take-le, take, arith,
}
use school_meals.CString.{Bytes, bytes, cut_at_zero}
use school_meals.Client.Network.{
  RecvEvent, recv_failed, closed, received, Response, ends_in_zero, receive_data, has_delimiter,
  taken_over, receive_loop, receive_response,
}

-- The text of a response, if there is one, and the zero behind it fit `size` bytes.
abbrev Fits : ℕ → Option Response → Type 0
Fits size none = Unit
Fits size (some (value, text)) = length text < size

Fits-if :
    (size : ℕ) (b : Bool) (r s : Option Response)
    → Fits size r
    → Fits size s
    → Fits size (if b then r else s)
Fits-if size true r s h h' = h
Fits-if size false r s h h' = h'

chunk-fits :
    (size : ℕ) (buffer chunk : Bytes)
    → length buffer < size
    → length (buffer ++ take (size - length buffer - 1) chunk) < size
chunk-fits size buffer chunk h = omega (
  arith,
  length-append buffer (take (size - length buffer - 1) chunk),
  length-take-le (size - length buffer - 1) chunk,
)

receive_data-Fits :
    (size : ℕ) (events : List RecvEvent) (buffer : Bytes)
    → length buffer < size
    → Fits size (receive_data size events buffer)
unfolding receive_data
receive_data-Fits size [] buffer h = Fits-if size (ltb (length buffer) (size - 1)) none _ tt h
receive_data-Fits size (recv_failed ∷ events) buffer h =
    Fits-if size (ltb (length buffer) (size - 1)) (some (false, buffer)) (some (true, buffer)) h h
receive_data-Fits size (closed ∷ events) buffer h = h
receive_data-Fits size (received [] ∷ events) buffer h = h
receive_data-Fits size (received (c ∷ chunk) ∷ events) buffer h =
    let buffer' = buffer ++ take (size - length buffer - 1) (c ∷ chunk) in
    let h' = chunk-fits size buffer (c ∷ chunk) h in
    Fits-if size (ltb (length buffer) (size - 1))
      (if ends_in_zero buffer' then some (true, buffer') else receive_data size events buffer')
      (some (true, buffer))
      (Fits-if size (ends_in_zero buffer') (some (true, buffer')) (receive_data size events buffer')
        h' (receive_data-Fits size events buffer' h'))
      h

-- Whatever recv returns, receive_data writes its bytes and the zero behind them within a buffer of
-- `size` bytes.
pub receive_data-bounds :
    (size : ℕ) (events : List RecvEvent) (value : Bool) (text : Bytes)
    → 0 < size
    → receive_data size events [] ≡ some (value, text)
    → length text < size
receive_data-bounds size events value text room h =
    subst (Fits size) h (receive_data-Fits size events [] room)

length-cut_at_zero-le : (s : Bytes) → length (cut_at_zero s) ≤ length s
unfolding cut_at_zero
length-cut_at_zero-le [] = omega arith
length-cut_at_zero-le (c ∷ s) = ground (arith, length-cut_at_zero-le s)

taken_over-Fits : (s : Bytes) → length s < 4096 → Fits 4096 (some (taken_over s))
taken_over-Fits [] h = omega arith
taken_over-Fits (c ∷ s) h = omega (arith, length-cut_at_zero-le (c ∷ s))

receive_loop-Fits :
    (events : List RecvEvent) (buffer : Bytes)
    → length buffer < 4096
    → Fits 4096 (receive_loop events buffer)
unfolding receive_loop
receive_loop-Fits [] buffer h =
    Fits-if 4096 (ltb (length buffer) 4095) none _ tt (taken_over-Fits buffer h)
receive_loop-Fits (recv_failed ∷ events) buffer h =
    Fits-if 4096 (ltb (length buffer) 4095) (some (false, bytes "서버 통신 오류")) _ (omega arith)
      (taken_over-Fits buffer h)
receive_loop-Fits (closed ∷ events) buffer h = taken_over-Fits buffer h
receive_loop-Fits (received [] ∷ events) buffer h = taken_over-Fits buffer h
receive_loop-Fits (received (c ∷ chunk) ∷ events) buffer h =
    let buffer' = buffer ++ take (4096 - length buffer - 1) (c ∷ chunk) in
    let h' = chunk-fits 4096 buffer (c ∷ chunk) h in
    Fits-if 4096 (ltb (length buffer) 4095) _ (some (taken_over buffer))
      (Fits-if 4096 (has_delimiter (cut_at_zero buffer')) (some (taken_over buffer'))
        (receive_loop events buffer') (taken_over-Fits buffer' h')
        (receive_loop-Fits events buffer' h'))
      (taken_over-Fits buffer h)

receive_response-Fits :
    (ready : Bool) (events : List RecvEvent) → Fits 4096 (receive_response ready events)
unfolding receive_response
receive_response-Fits false events = omega arith
receive_response-Fits true events = receive_loop-Fits events [] (omega arith)

-- Whatever select and recv return, what receive_response leaves in `response` fits BUFFER_SIZE bytes
-- with its terminator.
pub receive_response-bounds :
    (ready : Bool) (events : List RecvEvent) (value : Bool) (text : Bytes)
    → receive_response ready events ≡ some (value, text)
    → length text < 4096
receive_response-bounds ready events value text h =
    subst (Fits 4096) h (receive_response-Fits ready events)
