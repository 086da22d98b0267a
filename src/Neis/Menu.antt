-- ===== src/Neis/Menu.antt =====
-- server/neis_api.c: the text that is made of one menu of the meal service.
pub mod Lines
pub mod Letters
use school_meals.Base.{
  ℕ, zero, suc, ◌+◌, String, Bool, true, false, ◌&&◌, Option, none, some, List, [], ◌∷◌, ◌++◌,
  ◌>>=◌, ltb, ◌==◌, if◌then◌else◌, length, get_or, get_elem?,
}
use school_meals.CString.{Bytes, bytes, printed, snprintf, strcat, strtok}

-- The delimiters of strtok(temp, "<br/>")
abbrev pub br : Bytes
br = bytes "<br/>"

-- *strchr(item, '(') = '\0'
unfoldable pub cut_paren : Bytes → Bytes
cut_paren [] = []
cut_paren (c ∷ s) = if c == b'(' then [] else c ∷ cut_paren s

-- while (*item == ' ') item++
unfoldable pub skip_blanks : Bytes → Bytes
skip_blanks [] = []
skip_blanks (c ∷ s) = if c == b' ' then skip_blanks s else c ∷ s

abbrev pub blank_or : ℕ → Bytes → Bytes
blank_or c [] = if c == b' ' then [] else c ∷ []
blank_or c (d ∷ s) = c ∷ d ∷ s

unfoldable pub drop_trailing : Bytes → Bytes
drop_trailing [] = []
drop_trailing (c ∷ s) = blank_or c (drop_trailing s)

-- while (end > item && *end == ' '): the first byte stays.
unfoldable pub trim_end : Bytes → Bytes
unfolding drop_trailing
trim_end [] = []
trim_end (c ∷ s) = c ∷ drop_trailing s

unfoldable pub clean_item : Bytes → Bytes
clean_item item = trim_end (skip_blanks (cut_paren item))

-- The three strcat of an item that is not empty, into a buffer of `size` bytes
unfoldable pub add_item : ℕ → Bytes → Bytes → Option Bytes
add_item size text [] = some text
add_item size text (c ∷ item) = do
  text ← strcat size text (bytes "• ")
  text ← strcat size text (c ∷ item)
  strcat size text (bytes "\n")

-- The loop over strtok, one token per unit of fuel; each token takes a byte of the menu.
unfoldable pub add_items : ℕ → ℕ → Bytes → Option Bytes × Bytes → Option Bytes
unfolding clean_item add_item strtok
add_items fuel size text (none, rest) = some text
add_items zero size text (some item, rest) = none
add_items (suc fuel) size text (some item, rest) = do
  text ← add_item size text (clean_item item)
  add_items fuel size text (strtok br rest)

-- The whole loop over the menu, from the text that is in the buffer.
unfoldable pub add_menu : ℕ → Bytes → Bytes → Option Bytes
unfolding add_items strtok
add_menu size text menu = add_items (length menu) size text (strtok br menu)

-- formatted_date: eight bytes of the date, in a buffer of 20. Reading past the end of a shorter
-- text is undefined.
unfoldable pub formatted_date : Bytes → Option Bytes
formatted_date date =
    if ltb (length date) 8
    then none
    else some (
        snprintf 20 (
          printed (
            (get_or date 0 0 ∷ get_or date 1 0 ∷ get_or date 2 0 ∷ get_or date 3 0 ∷ [])
            ∷ bytes "년 "
            ∷ (get_or date 4 0 ∷ get_or date 5 0 ∷ [])
            ∷ bytes "월 "
            ∷ (get_or date 6 0 ∷ get_or date 7 0 ∷ [])
            ∷ bytes "일"
            ∷ [])))
