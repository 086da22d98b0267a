-- ===== src/Neis/Menu/Letters.antt =====
-- What the delimiter string "<br/>" of strtok does to the letters of a menu.
use school_meals.Base.{
  ℕ, ◌+◌, ◌<◌, ◌≡◌, refl, sym, ◌∙◌, Bool-cases, inl, inr, some, List, [], ◌∷◌, ◌++◌, ltb, length,
  All, All-append, ◌==◌,
}
use school_meals.CString.{Bytes, bytes, is_delim, strcat}
use school_meals.CString.Tokens.{Lacks}
use school_meals.Neis.Menu.{
  br, blank_or, cut_paren, skip_blanks, drop_trailing, trim_end, clean_item, add_menu,
}
use school_meals.Neis.Menu.Lines.{dish_or, dishes_from, line_of, lines_of, menu_lines, add_menu-eq}

-- What holds of all bytes of an item holds of those that clean_item leaves.
module _ (P : ℕ → Type 0) where
  cut_paren-All : (s : Bytes) → All P s → All P (cut_paren s)
  unfolding cut_paren
  cut_paren-All [] h = tt
  cut_paren-All (c ∷ s) (hc, h) = elim (Bool-cases (c == b'(')) [
    | inl e ↦ rw e tt
    | inr e ↦ rw e (hc, cut_paren-All s h)
  ]

  skip_blanks-All : (s : Bytes) → All P s → All P (skip_blanks s)
  unfolding skip_blanks
  skip_blanks-All [] h = tt
  skip_blanks-All (c ∷ s) (hc, h) = elim (Bool-cases (c == b' ')) [
    | inl e ↦ rw e (skip_blanks-All s h)
    | inr e ↦ rw e (hc, h)
  ]

  blank_or-All : (c : ℕ) (s : Bytes) → P c → All P s → All P (blank_or c s)
  blank_or-All c [] hc h = elim (Bool-cases (c == b' ')) [ inl e ↦ rw e tt | inr e ↦ rw e (hc, tt) ]
  blank_or-All c (d ∷ s) hc h = (hc, h)

  drop_trailing-All : (s : Bytes) → All P s → All P (drop_trailing s)
  unfolding drop_trailing
  drop_trailing-All [] h = tt
  drop_trailing-All (c ∷ s) (hc, h) = blank_or-All c (drop_trailing s) hc (drop_trailing-All s h)

  trim_end-All : (s : Bytes) → All P s → All P (trim_end s)
  unfolding trim_end
  trim_end-All [] h = tt
  trim_end-All (c ∷ s) (hc, h) = (hc, drop_trailing-All s h)

  pub clean_item-All : (s : Bytes) → All P s → All P (clean_item s)
  unfolding clean_item
  clean_item-All s h = trim_end-All _ (skip_blanks-All _ (cut_paren-All s h))

line_of-Lacks : (dish : Bytes) → Lacks br dish → Lacks br (line_of dish)
line_of-Lacks [] h = tt
line_of-Lacks (c ∷ dish) h =
    (refl, (refl, (refl, (refl, All-append _ (c ∷ dish) (bytes "\n") h (refl, tt)))))

dish_or-Lacks :
    (dish : Bytes) (rest : List Bytes)
    → Lacks br dish
    → Lacks br (lines_of rest)
    → Lacks br (lines_of (dish_or dish rest))
dish_or-Lacks [] rest hd hr = hr
dish_or-Lacks (c ∷ dish) rest hd hr =
    All-append _ (line_of (clean_item (c ∷ dish))) _
      (line_of-Lacks _ (clean_item-All _ (c ∷ dish) hd)) hr

dishes_from-Lacks : (dish s : Bytes) → Lacks br dish → Lacks br (lines_of (dishes_from dish s))
unfolding dishes_from
dishes_from-Lacks dish [] h = dish_or-Lacks dish [] h tt
dishes_from-Lacks dish (c ∷ s) h = elim (Bool-cases (is_delim br c)) [
  | inl e ↦ rw e (dish_or-Lacks dish (dishes_from [] s) h (dishes_from-Lacks [] s tt))
  | inr e ↦ rw e (dishes_from-Lacks (dish ++ c ∷ []) s (All-append _ dish (c ∷ []) h (e, tt)))
]

menu_lines-Lacks : (menu : Bytes) → Lacks br (menu_lines menu)
unfolding menu_lines
menu_lines-Lacks menu = dishes_from-Lacks [] menu tt

added_part :
    (size : ℕ) (text lines out : Bytes) → strcat size text lines ≡ some out → out ≡ text ++ lines
added_part size text lines out h = elim (Bool-cases (ltb (length text + length lines) size)) [
  | inl e ↦ cc (rw e at h)
  | inr e ↦ absurd (cc (rw e at h))
]

-- Whatever the menu, what the loop adds to a text that fits its buffer has none of the five bytes
-- of "<br/>": the letters b and r of a dish's name are lost like the tag.
pub add_menu-Lacks :
    (size : ℕ) (text menu out : Bytes)
    → length text < size
    → add_menu size text menu ≡ some out
    → (lines : Bytes) × (out ≡ text ++ lines) × Lacks br lines
add_menu-Lacks size text menu out h e = (
  menu_lines menu,
  added_part size text (menu_lines menu) out (sym (add_menu-eq size text menu h) ∙ e),
  menu_lines-Lacks menu,
)
