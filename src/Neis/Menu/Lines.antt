-- ===== src/Neis/Menu/Lines.antt =====
-- The menu text against an independent description: one line for each dish between the delimiters.
use school_meals.Base.{
  ℕ, zero, suc, ◌+◌, ◌≤◌, ◌<◌, ◌≡◌, refl, sym, ◌∙◌, false, Option, none, some, List, [], ◌∷◌, ◌++◌,
  ◌>>=◌, ltb, if◌then◌else◌, length, length-append, subst, ◌⊎◌, ◌<◌, Bool-cases, inl, inr, arith,
  append_assoc, append-nil,
}
use school_meals.CString.{
  Bytes, bytes, is_delim, skip_delims, token_of, after_token, strtok, strcat,
}
use school_meals.Neis.Menu.{br, clean_item, add_item, add_items, add_menu}

abbrev pub dish_or : Bytes → List Bytes → List Bytes
dish_or [] rest = rest
dish_or (c ∷ dish) rest = (c ∷ dish) ∷ rest

-- The pieces between delimiters that are not empty; `dish` is what was read of the current one.
unfoldable pub dishes_from : Bytes → Bytes → List Bytes
dishes_from dish [] = dish_or dish []
dishes_from dish (c ∷ s) =
    if is_delim br c then dish_or dish (dishes_from [] s) else dishes_from (dish ++ c ∷ []) s

-- A bullet, the dish and the end of the line; nothing for a dish that has no text left.
abbrev pub line_of : Bytes → Bytes
line_of [] = []
line_of (c ∷ dish) = bytes "• " ++ (c ∷ dish) ++ bytes "\n"

abbrev pub lines_of : List Bytes → Bytes
lines_of [] = []
lines_of (dish ∷ rest) = line_of (clean_item dish) ++ lines_of rest

unfoldable pub menu_lines : Bytes → Bytes
unfolding dishes_from
menu_lines menu = lines_of (dishes_from [] menu)

dishes_from-token :
    (d : ℕ) (dish s : Bytes)
    → dishes_from (d ∷ dish) s ≡ (d ∷ dish ++ token_of br s) ∷ dishes_from [] (after_token br s)
unfolding dishes_from token_of after_token
dishes_from-token d dish [] = rw append-nil
dishes_from-token d dish (c ∷ s) = elim (Bool-cases (is_delim br c)) [
  | inl h ↦ rw (h, append-nil)
  | inr h ↦ rw (h, dishes_from-token d (dish ++ c ∷ []) s, append_assoc)
]

dishes_from-skip : (s : Bytes) → dishes_from [] (skip_delims br s) ≡ dishes_from [] s
unfolding dishes_from skip_delims
dishes_from-skip [] = refl
dishes_from-skip (c ∷ s) = elim (Bool-cases (is_delim br c)) [
  | inl h ↦ rw (h, dishes_from-skip s)
  | inr h ↦ rw h (rw h)
]

length-skip_delims : (s : Bytes) → length (skip_delims br s) ≤ length s
unfolding skip_delims
length-skip_delims [] = omega arith
length-skip_delims (c ∷ s) = elim (Bool-cases (is_delim br c)) [
  | inl h ↦ rw h (omega (arith, length-skip_delims s))
  | inr h ↦ rw h (omega arith)
]

length-after_token : (s : Bytes) → length (after_token br s) ≤ length s
unfolding after_token
length-after_token [] = omega arith
length-after_token (c ∷ s) = elim (Bool-cases (is_delim br c)) [
  | inl h ↦ rw h (omega arith)
  | inr h ↦ rw h (omega (arith, length-after_token s))
]

skip_delims-head : (s rest : Bytes) (c : ℕ) → skip_delims br s ≡ c ∷ rest → is_delim br c ≡ false
unfolding skip_delims
skip_delims-head [] rest c h = cc
skip_delims-head (d ∷ s) rest c h = elim (Bool-cases (is_delim br d)) [
  | inl hd ↦ skip_delims-head s rest c (rw hd at h)
  | inr hd ↦ cc (rw hd at h)
]

token_of-head :
    (c : ℕ) (t : Bytes)
    → is_delim br c ≡ false
    → (token_of br (c ∷ t) ≡ c ∷ token_of br t)
      × (after_token br (c ∷ t) ≡ after_token br t)
      × (dishes_from [] (c ∷ t) ≡ dishes_from (c ∷ []) t)
unfolding token_of after_token dishes_from
token_of-head c t h = (rw h, rw h, rw h)

dishes_from-nil : dishes_from [] [] ≡ []
unfolding dishes_from
dishes_from-nil = refl

-- One call of strtok takes the first dish.
abbrev Taken : Bytes → Type 0
Taken s =
    ((strtok br s ≡ (none, [])) × (dishes_from [] s ≡ []))
    ⊎ ((dish : Bytes) × (rest : Bytes) × (strtok br s ≡ (some dish, rest))
        × (dishes_from [] s ≡ dish ∷ dishes_from [] rest)
        × (length rest < length s))

strtok-Taken_of : (s t : Bytes) → skip_delims br s ≡ t → Taken s
unfolding strtok
strtok-Taken_of s [] h = inl (rw h, sym (dishes_from-skip s) ∙ rw h dishes_from-nil)
strtok-Taken_of s (c ∷ t) h =
    let is_text = skip_delims-head s t c h in
    let (token, after, dishes) = token_of-head c t is_text in
    inr (
      token_of br (c ∷ t),
      after_token br (c ∷ t),
      rw h,
      rw (token, after, ← (dishes_from-skip s), h, dishes, dishes_from-token c [] t),
      rw after (
          omega (
            arith,
            length-after_token t,
            subst (λ u. length u ≤ length s) h (length-skip_delims s),
          )),
    )

strtok-Taken : (s : Bytes) → Taken s
strtok-Taken s = strtok-Taken_of s (skip_delims br s) refl

module _ (size : ℕ) where
  -- Two appends in a row are one.
  strcat-strcat :
      (text a b : Bytes) (next : Bytes → Option Bytes)
      → ((t : Bytes) → length t < size → next t ≡ strcat size t b)
      → (strcat size text a >>= next) ≡ strcat size text (a ++ b)
  strcat-strcat text a b next h = elim (Bool-cases (ltb (length text + length a) size)) [
    | inl fits ↦ rw fits (
        h (text ++ a) (rw (length-append text a) (ground arith))
        ∙ rw (length-append text a, length-append a b, append_assoc) (ground arith))
    | inr full ↦ rw full (rw (length-append a b) (ground arith))
  ]

  add_item-eq :
      (text dish : Bytes)
      → length text < size
      → add_item size text dish ≡ strcat size text (line_of dish)
  unfolding add_item
  add_item-eq text [] h = rw append-nil (ground arith)
  add_item-eq text (c ∷ dish) h =
      strcat-strcat text (bytes "• ") ((c ∷ dish) ++ bytes "\n")
        (λ t. strcat size t (c ∷ dish) >>= λ u. strcat size u (bytes "\n"))
        (λ t _.
          strcat-strcat t (c ∷ dish) (bytes "\n") (λ u. strcat size u (bytes "\n")) (λ _ _. refl))

  last_items :
      (fuel : ℕ) (text s : Bytes)
      → strtok br s ≡ (none, [])
      → dishes_from [] s ≡ []
      → length text < size
      → add_items fuel size text (strtok br s) ≡ strcat size text (lines_of (dishes_from [] s))
  unfolding add_items
  last_items fuel text s last none_left h = rw last (
      subst (λ ds. some text ≡ strcat size text (lines_of ds)) (sym none_left)
        (rw append-nil (ground arith)))

  add_items-eq :
      (fuel : ℕ) (text s : Bytes)
      → length s ≤ fuel
      → length text < size
      → add_items fuel size text (strtok br s) ≡ strcat size text (lines_of (dishes_from [] s))
  unfolding add_items
  add_items-eq zero text s enough h = elim (strtok-Taken s) [
    | inl (last, none_left) ↦ last_items zero text s last none_left h
    | inr (dish, rest, taken, more, shorter) ↦ absurd (omega arith)
  ]
  add_items-eq (suc fuel) text s enough h = elim (strtok-Taken s) [
    | inl (last, none_left) ↦ last_items (suc fuel) text s last none_left h
    | inr (dish, rest, taken, more, shorter) ↦ rw taken (
        rw (add_item-eq text (clean_item dish) h) (
          subst
            (λ ds.
              (strcat size text (line_of (clean_item dish)) >>= λ t.
              add_items fuel size t (strtok br rest))
              ≡ strcat size text (lines_of ds))
            (sym more)
            (strcat-strcat text (line_of (clean_item dish)) (lines_of (dishes_from [] rest))
              (λ t. add_items fuel size t (strtok br rest))
              (λ t ht. add_items-eq fuel t rest (omega arith) ht))))
  ]

  -- From a text that fits its buffer, the loop over strtok appends the lines of all dishes, if they
  -- fit too with the terminator, and otherwise writes past the buffer.
  pub add_menu-eq :
      (text menu : Bytes)
      → length text < size
      → add_menu size text menu ≡ strcat size text (menu_lines menu)
  unfolding add_menu menu_lines
  add_menu-eq text menu h = add_items-eq (length menu) text menu (omega arith) h
