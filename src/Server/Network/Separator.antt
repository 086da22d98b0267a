-- ===== src/Server/Network/Separator.antt =====
-- parse_response and send_response do not agree on the separator.
use school_meals.Base.{ℕ, ◌+◌, ◌<◌, ◌≡◌, refl, true, none, [], ◌∷◌, lt→ltb, arith}
use school_meals.CString.{Bytes, isdigit}
use school_meals.Protocol.{decimal, decimal_digits, response, skip_spaces}
use school_meals.Server.Network.{after_digits, scan_int, parse_response}

one_digit : (n : ℕ) → n < 10 → decimal n ≡ (b'0' + n) ∷ []
unfolding decimal decimal_digits
one_digit n h = rw (lt→ltb n 10 h) refl

digit_slash : (c : ℕ) (rest : Bytes) → isdigit c ≡ true → parse_response (c ∷ b'/' ∷ rest) ≡ none
unfolding parse_response scan_int after_digits skip_spaces
digit_slash c rest h = ground arith

-- No response of send_response with a status of one digit, as all of its statuses are, is one to
-- parse_response of server/network.c.
pub parse_response-response :
    (n : ℕ) (message text : Bytes) → n < 10 → parse_response (response n message text) ≡ none
unfolding response
parse_response-response n message [] h =
    rw (one_digit n h) (digit_slash (b'0' + n) _ (ground arith))
parse_response-response n message (c ∷ text) h =
    rw (one_digit n h) (digit_slash (b'0' + n) _ (ground arith))
