-- ===== src/Server/Network.antt =====
-- server/network.c: parse_response and receive_data. server.c calls neither.
pub mod Separator
use school_meals.Base.{
  ℕ, zero, suc, ◌-◌, Bool, true, false, not, Option, none, some, List, [], ◌∷◌, ◌>>=◌, ◌==◌,
  if◌then◌else◌, take,
}
use school_meals.CString.{Bytes, isdigit, cut_at_zero}
use school_meals.Protocol.{ℤ, pos, negsuc, negative, scan_digits, skip_spaces}

unfoldable pub after_digits : Bytes → Bytes
after_digits [] = []
after_digits (c ∷ s) = if isdigit c then after_digits s else c ∷ s

-- The digits of %d, at least one
abbrev pub unsigned_int : (ℕ → ℤ) → Bytes → Option (ℤ × Bytes)
unsigned_int sign [] = none
unsigned_int sign (c ∷ s) =
    if isdigit c then some (sign (scan_digits 0 (c ∷ s)), after_digits (c ∷ s)) else none

abbrev pub signed_int : Bytes → Option (ℤ × Bytes)
signed_int [] = none
signed_int (c ∷ s) =
    if c == b'-'
    then unsigned_int negative s
    else if c == b'+'
    then unsigned_int pos s
    else unsigned_int pos (c ∷ s)

-- sscanf's %d: white space, a sign, digits
unfoldable pub scan_int : Bytes → Option (ℤ × Bytes)
unfolding after_digits scan_digits skip_spaces
scan_int s = signed_int (skip_spaces s)

-- A byte of the format that must come next
abbrev pub literal : ℕ → Bytes → Option Bytes
literal c [] = none
literal c (d ∷ s) = if d == c then some s else none

-- The bytes before the first `stop`
unfoldable pub up_to : ℕ → Bytes → Bytes × Bytes
up_to stop [] = ([], [])
up_to stop (c ∷ s) =
    let (t, rest) = up_to stop s in if c == stop then ([], c ∷ s) else (c ∷ t, rest)

abbrev pub some_bytes : Bytes × Bytes → Option (Bytes × Bytes)
some_bytes ([], rest) = none
some_bytes (c ∷ t, rest) = some (c ∷ t, rest)

-- The third item, where `data` is not NULL; without it the two before are enough.
abbrev pub third_item : Bytes → Option Bytes
third_item s = do s ← literal b'|' s; (text, rest) ← some_bytes (up_to 10 s); some text

-- *status, message and data, where sscanf(buffer, "%d|%[^|]|%[^\n]", …) returns 2 or 3
unfoldable pub parse_response : Bytes → Option (ℤ × Bytes × Option Bytes)
unfolding scan_int up_to
parse_response buffer = do
  (status, s) ← scan_int buffer
  s ← literal b'|' s
  (message, s) ← some_bytes (up_to b'|' s)
  some (status, message, third_item s)

-- recv into a buffer that was zeroed: what a reader of the string sees, or the value false
unfoldable pub receive_data : ℕ → Option Bytes → Option Bytes
unfolding cut_at_zero
receive_data size none = none
receive_data size (some received) = some (cut_at_zero (take (size - 1) received))
