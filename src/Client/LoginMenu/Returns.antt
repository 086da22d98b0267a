-- ===== src/Client/LoginMenu/Returns.antt =====
-- The prompts of the registration in client/menu.c return.
use school_meals.Base.{
  ℕ, zero, suc, ◌+◌, ◌-◌, ◌<◌, ◌≤◌, ◌≡◌, refl, sym, ap, subst, ◌∙◌, Bool, Bool-cases, inl, inr,
  true, false, some, List, [], ◌∷◌, ◌++◌, ◌>>=◌, length, length-append, take, drop, ltb, lt→ltb,
  length-drop, append_assoc, arith,
}
use school_meals.CString.{Bytes}
use school_meals.Input.{is_valid_id, is_valid_password}
use school_meals.Input.Prompts.{Typed}
use school_meals.Client.Menu.{fgets}
use school_meals.Client.LoginMenu.{
  checked, ask_rounds, typed_bytes, ask_again, Account, last_prompts, register_prompts,
}

-- A loop that has returned an accepted text, with what is behind the line that it was sure of still
-- to be read.
abbrev Returned : (Bytes → Bool) → List Bytes → Typed Bytes → Type 0
Returned accepted after result =
    (text : Bytes) × (left : List Bytes) × (result ≡ some (text, left ++ after))
    × (accepted text ≡ true)

pub fgets-fits :
    (size : ℕ) (line : Bytes) (lines : List Bytes)
    → length line < size - 1
    → fgets size (line ∷ lines) ≡ some (line, lines)
fgets-fits size line lines h = rw (lt→ltb (length line) (size - 1) h) refl

fgets-cut :
    (size : ℕ) (line : Bytes) (lines : List Bytes)
    → ltb (length line) (size - 1) ≡ false
    → fgets size (line ∷ lines) ≡ some (take (size - 1) line, drop (size - 1) line ∷ lines)
fgets-cut size line lines h = rw h refl

module _ (accepted : Bytes → Bool) (line : Bytes) (after : List Bytes) where
  checked-Returned :
      (more : List Bytes → Typed Bytes) (text : Bytes) (before : List Bytes)
      → Returned accepted after (more (before ++ line ∷ after))
      → Returned accepted after (checked accepted more (some (text, before ++ line ∷ after)))
  checked-Returned more text before later = elim (Bool-cases (accepted text)) [
    | inl taken ↦ rw taken (
        (
          text,
          before ++ line ∷ [],
          ap (λ l. some (text, l)) (sym (append_assoc before (line ∷ []) after)),
          taken,
        ))
    | inr refused ↦ rw refused later
  ]

  module _ (size : ℕ) (some_room : 1 < size) (fits : length line < size - 1)
      (ok : accepted line ≡ true) where
    ask_rounds-Returned :
        (fuel : ℕ) (before : List Bytes)
        → typed_bytes before < fuel
        → Returned accepted after (ask_rounds accepted size fuel (before ++ line ∷ after))
    unfolding ask_rounds
    ask_rounds-Returned zero before enough = absurd (omega arith)
    ask_rounds-Returned (suc fuel) [] enough =
        (line, [], ap (checked accepted _) (fgets-fits size line after fits) ∙ rw ok refl, ok)
    ask_rounds-Returned (suc fuel) (b ∷ before) enough =
        elim (Bool-cases (ltb (length b) (size - 1))) [
          | inl short ↦ rw short (
              checked-Returned (ask_rounds accepted size fuel) b before
                (ask_rounds-Returned fuel before (omega arith)))
          | inr long ↦ rw long (
              checked-Returned (ask_rounds accepted size fuel) (take (size - 1) b)
                (drop (size - 1) b ∷ before)
                (ask_rounds-Returned fuel (drop (size - 1) b ∷ before)
                  (ground (arith, length-drop (size - 1) b))))
        ]

typed_bytes-append :
    (before after : List Bytes)
    → typed_bytes (before ++ after) ≡ typed_bytes before + typed_bytes after
typed_bytes-append [] after = omega arith
typed_bytes-append (b ∷ before) after = omega (arith, typed_bytes-append before after)

ask_again-Returned :
    (accepted : Bytes → Bool) (size : ℕ) (before : List Bytes) (line : Bytes) (after : List Bytes)
    → 1 < size
    → length line < size - 1
    → accepted line ≡ true
    → Returned accepted after (ask_again accepted size (before ++ line ∷ after))
unfolding ask_again
ask_again-Returned accepted size before line after some_room fits ok =
    ask_rounds-Returned accepted line after size some_room fits ok _ before
      (omega (arith, typed_bytes-append before (line ∷ after)))

ask_rounds-first :
    (accepted : Bytes → Bool) (size fuel : ℕ) (line : Bytes) (lines : List Bytes)
    → 1 ≤ fuel
    → length line < size - 1
    → accepted line ≡ true
    → ask_rounds accepted size fuel (line ∷ lines) ≡ some (line, lines)
unfolding ask_rounds
ask_rounds-first accepted size zero line lines some_fuel fits ok = absurd (omega arith)
ask_rounds-first accepted size (suc fuel) line lines some_fuel fits ok =
    ap (checked accepted _) (fgets-fits size line lines fits) ∙ rw ok refl

-- A line that is accepted at once
pub ask_again-first :
    (accepted : Bytes → Bool) (size : ℕ) (line : Bytes) (lines : List Bytes)
    → length line < size - 1
    → accepted line ≡ true
    → ask_again accepted size (line ∷ lines) ≡ some (line, lines)
unfolding ask_again
ask_again-first accepted size line lines = ask_rounds-first accepted size _ line lines (omega arith)

-- fgets takes one line at most.
fgets-some :
    (size : ℕ) (lines : List Bytes)
    → 1 ≤ length lines
    → (text : Bytes) × (left : List Bytes) × (fgets size lines ≡ some (text, left))
      × (length lines ≤ suc (length left))
fgets-some size [] h = absurd (omega arith)
fgets-some size (line ∷ lines) h = elim (Bool-cases (ltb (length line) (size - 1))) [
  | inl short ↦ rw short ((line, lines, refl, omega arith))
  | inr long ↦ (
    take (size - 1) line,
    drop (size - 1) line ∷ lines,
    fgets-cut size line lines long,
    omega arith,
  )
]

pub valid_id-fits : (id : Bytes) → is_valid_id id ≡ true → length id < 19
unfolding is_valid_id
valid_id-fits id h = ground arith

pub valid_password-fits : (pw : Bytes) → is_valid_password pw ≡ true → length pw < 19
unfolding is_valid_password
valid_password-fits pw h = ground arith

-- What is asked for after the password
last_prompts-some :
    (id pw : Bytes) (lines : List Bytes)
    → 2 ≤ length lines
    → (account : Account) × (left : List Bytes) × (last_prompts id pw lines ≡ some (account, left))
      × (account.id ≡ id)
      × (account.pw ≡ pw)
last_prompts-some id pw lines h =
    let (office, l1, typed, s1) = fgets-some 50 lines (omega arith) in
    let (school, l2, typed', s2) = fgets-some 50 l1 (omega arith) in
    (
      record { id = id; pw = pw; edu_office = office; school_name = school },
      l2,
      rw (typed, typed') refl,
      refl,
      refl,
    )

pub register_prompts-lines :
    (l l1 l2 : List Bytes) (id pw : Bytes)
    → ask_again is_valid_id 20 l ≡ some (id, l1)
    → ask_again is_valid_password 20 l1 ≡ some (pw, l2)
    → register_prompts l ≡ last_prompts id pw l2
unfolding register_prompts
register_prompts-lines l l1 l2 id pw h h' =
    ap
      (λ (o : Typed Bytes).
        o >>= λ t. ask_again is_valid_password 20 t.1 >>= λ u. last_prompts t.0 u.0 u.1)
      h
    ∙ ap (λ (o : Typed Bytes). o >>= λ u. last_prompts id u.0 u.1) h'

-- Whatever was typed and refused before them, once an acceptable id is typed, later an acceptable
-- password, and after it two more lines, the prompts of the registration return, with an id and a
-- password that are accepted.
pub register_prompts-returns :
    (before between after : List Bytes) (id pw : Bytes)
    → is_valid_id id ≡ true
    → is_valid_password pw ≡ true
    → 2 ≤ length after
    → (account : Account) × (left : List Bytes) × (register_prompts
          (before ++ id ∷ (between ++ pw ∷ after))
        ≡ some (account, left))
      × (is_valid_id account.id ≡ true)
      × (is_valid_password account.pw ≡ true)
register_prompts-returns before between after id pw hi hp h =
    let (id', left, typed, ok) =
      ask_again-Returned is_valid_id 20 before id (between ++ pw ∷ after) (omega arith)
        (valid_id-fits id hi) hi in
    let (pw', left', typed', ok') =
      ask_again-Returned is_valid_password 20 (left ++ between) pw after (omega arith)
        (valid_password-fits pw hp) hp in
    let (account, rest, typed'', same_id, same_pw) =
      last_prompts-some id' pw' (left' ++ after) (omega (arith, length-append left' after)) in
    (
      account,
      rest,
      register_prompts-lines _ _ _ id' pw' typed (
            ap (ask_again is_valid_password 20) (sym (append_assoc left between (pw ∷ after)))
            ∙ typed')
          ∙ typed'',
      subst (λ t. is_valid_id t ≡ true) (sym same_id) ok,
      subst (λ t. is_valid_password t ≡ true) (sym same_pw) ok',
    )
