-- ===== src/Protocol.antt =====
-- include/common.h, include/protocol.h: the sizes, the commands and the formats of requests and
-- responses, with the two conversions of numbers that they use.
pub mod Requests
use school_meals.Base.{
  ℕ, zero, suc, ◌+◌, ◌*◌, ◌-◌, ◌/◌, ◌%◌, String, Bool, false, ◌&&◌, ◌||◌, [], ◌∷◌, ◌++◌, ltb, leb,
  ◌==◌, if◌then◌else◌,
}
use school_meals.CString.{Bytes, bytes, snprintf, printed, isdigit}

abbrev pub buffer_size : ℕ
buffer_size = 4096

abbrev pub max_id_len : ℕ
max_id_len = 20

abbrev pub max_pw_len : ℕ
max_pw_len = 20

abbrev pub max_name_len : ℕ
max_name_len = 50

abbrev pub max_role_len : ℕ
max_role_len = 20

abbrev pub max_edu_office_len : ℕ
max_edu_office_len = 50

abbrev pub max_school_name_len : ℕ
max_school_name_len = 50

abbrev pub max_meal_len : ℕ
max_meal_len = 2000

abbrev pub max_date_len : ℕ
max_date_len = 11

abbrev pub max_children : ℕ
max_children = 10

abbrev pub resp_success : ℕ
resp_success = 1

abbrev pub resp_error : ℕ
resp_error = 0

abbrev pub resp_duplicate : ℕ
resp_duplicate = 2

-- CMD_DELIMITER, both as the text that is printed and as the set of bytes that strtok reads
abbrev pub cmd_delimiter : Bytes
cmd_delimiter = b'/' ∷ b'/' ∷ []

abbrev pub role_general : String
role_general = "GENERAL"

abbrev pub role_parent : String
role_parent = "PARENT"

-- printf's %d of a number that is not negative: `fuel` digits at most, the last first
unfoldable pub decimal_digits : ℕ → ℕ → Bytes → Bytes
decimal_digits zero n out = out
decimal_digits (suc fuel) n out =
    let more = decimal_digits fuel (n / 10) ((b'0' + n % 10) ∷ out) in
    if ltb n 10 then (b'0' + n) ∷ out else more

-- An int has ten digits at most.
unfoldable pub decimal : ℕ → Bytes
unfolding decimal_digits
decimal n = decimal_digits 10 n []

pub data ℤ : Type 0 where
  pos : ℕ → ℤ
  negsuc : ℕ → ℤ

-- An int equals a number that is not negative.
abbrev pub int_eq : ℤ → ℕ → Bool
int_eq (pos n) k = n == k
int_eq (negsuc n) k = false

unfoldable pub scan_digits : ℕ → Bytes → ℕ
scan_digits n [] = n
scan_digits n (c ∷ s) = if isdigit c then scan_digits (n * 10 + (c - b'0')) s else n

abbrev pub negative : ℕ → ℤ
negative zero = pos 0
negative (suc n) = negsuc n

unfoldable pub skip_spaces : Bytes → Bytes
skip_spaces [] = []
skip_spaces (c ∷ s) = if c == b' ' || (leb 9 c && leb c 13) then skip_spaces s else c ∷ s

unfoldable pub signed_digits : Bytes → ℤ
unfolding scan_digits
signed_digits [] = pos 0
signed_digits (c ∷ s) =
    if c == b'-'
    then negative (scan_digits 0 s)
    else if c == b'+'
    then pos (scan_digits 0 s)
    else pos (scan_digits 0 (c ∷ s))

-- atoi: leading white space, a sign, and digits up to the first other byte. A value out of the
-- range of int, which is undefined behaviour there, is kept as it is.
unfoldable pub atoi : Bytes → ℤ
unfolding skip_spaces signed_digits
atoi s = signed_digits (skip_spaces s)

-- send_response of server/server.c: the text that is handed to send.
unfoldable pub response : ℕ → Bytes → Bytes → Bytes
response status message [] =
    snprintf buffer_size (printed (decimal status ∷ cmd_delimiter ∷ message ∷ []))
response status message (c ∷ text) =
    snprintf buffer_size
      (printed (decimal status ∷ cmd_delimiter ∷ message ∷ cmd_delimiter ∷ (c ∷ text) ∷ []))
