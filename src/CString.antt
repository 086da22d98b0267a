-- ===== src/CString.antt =====
-- C strings and the functions of <string.h> and <stdio.h> that the program calls on them. A string
-- is its list of bytes before the terminating zero.
pub mod Tokens
pub mod Equal
use Prim.Native.Char.{code}
use school_meals.Base.{
  ℕ, zero, suc, ◌+◌, ◌-◌, ◌*◌, ◌/◌, ◌%◌, String, Bool, true, false, ◌&&◌, ◌||◌, Option, none, some,
  List, [], ◌∷◌, ◌++◌, ltb, leb, ◌==◌, if◌then◌else◌, length, take, any,
}

abbrev pub Bytes : Type 0
Bytes = List ℕ

-- The bytes of one code point in UTF-8, the encoding of the sources.
abbrev pub utf8 : ℕ → Bytes
utf8 c =
    if ltb c 128
    then c ∷ []
    else if ltb c 2048
    then (192 + c / 64) ∷ (128 + c % 64) ∷ []
    else if ltb c 65536
    then (224 + c / 4096) ∷ (128 + c / 64 % 64) ∷ (128 + c % 64) ∷ []
    else (240 + c / 262144) ∷ (128 + c / 4096 % 64) ∷ (128 + c / 64 % 64) ∷ (128 + c % 64) ∷ []

-- The bytes of a string literal.
abbrev pub bytes : String → Bytes
bytes String.[] = []
bytes (String.◌∷◌ c s) = utf8 (code c) ++ bytes s

-- strcmp(a, b) == 0
unfoldable pub bytes_eq : Bytes → Bytes → Bool
bytes_eq [] [] = true
bytes_eq [] (d ∷ b) = false
bytes_eq (c ∷ a) [] = false
bytes_eq (c ∷ a) (d ∷ b) = c == d && bytes_eq a b

-- strcmp(a, b) > 0
unfoldable pub strcmp_gt : Bytes → Bytes → Bool
strcmp_gt [] b = false
strcmp_gt (c ∷ a) [] = true
strcmp_gt (c ∷ a) (d ∷ b) = if c == d then strcmp_gt a b else ltb d c

-- The output of printf for a format of %s and literal text: its pieces in order.
abbrev pub printed : List Bytes → Bytes
printed [] = []
printed (p ∷ []) = p
printed (p ∷ q ∷ rest) = p ++ printed (q ∷ rest)

-- What snprintf(buf, size, …) leaves in buf when the whole output is `s`.
abbrev pub snprintf : ℕ → Bytes → Bytes
snprintf size s = take (size - 1) s

-- The string in a buffer after strncpy(buf, src, n), where buf[n] is zero: by an earlier write, or
-- by the assignment that follows the copy.
abbrev pub strncpy : ℕ → Bytes → Bytes
strncpy n src = take n src

-- The same where buf[n] was never written: a source of n bytes or more leaves no terminator, and
-- reading the string is undefined behaviour, `none`.
abbrev pub strncpy_raw : ℕ → Bytes → Option Bytes
strncpy_raw n src = if ltb (length src) n then some src else none

-- strcat(buf, src) with a buffer of `size` bytes: writing past it is undefined, `none`.
abbrev pub strcat : ℕ → Bytes → Bytes → Option Bytes
strcat size buf src = if ltb (length buf + length src) size then some (buf ++ src) else none

-- strncat(buf, src, size - strlen(buf) - 1)
abbrev pub strncat_rest : ℕ → Bytes → Bytes → Bytes
strncat_rest size buf src = buf ++ take (size - length buf - 1) src

-- What a receiver that treats its buffer as a string sees: the bytes before the first zero.
unfoldable pub cut_at_zero : Bytes → Bytes
cut_at_zero [] = []
cut_at_zero (c ∷ s) = if c == 0 then [] else c ∷ cut_at_zero s

-- isdigit and isalnum in the C locale; a byte past 127 is neither.
abbrev pub isdigit : ℕ → Bool
isdigit c = leb b'0' c && leb c b'9'

abbrev pub isalnum : ℕ → Bool
isalnum c = isdigit c || (leb b'A' c && leb c b'Z') || (leb b'a' c && leb c b'z')

-- strtok: the delimiter string is a set of bytes.
abbrev pub is_delim : Bytes → ℕ → Bool
is_delim delims c = any (λ d. d == c) delims

unfoldable pub skip_delims : Bytes → Bytes → Bytes
skip_delims delims [] = []
skip_delims delims (c ∷ s) = if is_delim delims c then skip_delims delims s else c ∷ s

unfoldable pub token_of : Bytes → Bytes → Bytes
token_of delims [] = []
token_of delims (c ∷ s) = if is_delim delims c then [] else c ∷ token_of delims s

-- The byte that ends the token is overwritten by a zero, so the next call starts behind it.
unfoldable pub after_token : Bytes → Bytes → Bytes
after_token delims [] = []
after_token delims (c ∷ s) = if is_delim delims c then s else after_token delims s

unfoldable pub first_token : Bytes → Bytes → Option Bytes × Bytes
unfolding token_of after_token
first_token delims [] = (none, [])
first_token delims (c ∷ s) = (some (token_of delims (c ∷ s)), after_token delims (c ∷ s))

-- One call of strtok on the text that is left: the token, or NULL, and what is left then.
unfoldable pub strtok : Bytes → Bytes → Option Bytes × Bytes
unfolding skip_delims first_token
strtok delims s = first_token delims (skip_delims delims s)
