-- ===== src/CString/Tokens.antt =====
-- How strtok cuts a text that was put together from fields.
use school_meals.Base.{
  ℕ, ◌≡◌, ◌≢◌, refl, true, false, none, some, [], ◌∷◌, ◌++◌, All, every, not, &&-eq-true, arith,
}
use school_meals.CString.{Bytes, is_delim, token_of, after_token, strtok}

-- No byte of the text is a delimiter.
abbrev pub Lacks : Bytes → Bytes → Type 0
Lacks delims = All (λ c. is_delim delims c ≡ false)

-- A field that strtok returns whole: not empty, and with no delimiter in it.
abbrev pub IsField : Bytes → Bytes → Type 0
IsField delims f = (f ≢ []) × Lacks delims f

-- A text is checked by evaluation.
pub Lacks-of_test :
    (delims s : Bytes) → every (λ c. not (is_delim delims c)) s ≡ true → Lacks delims s
Lacks-of_test delims [] h = tt
Lacks-of_test delims (c ∷ s) h =
    let (hc, hs) = &&-eq-true (not (is_delim delims c)) _ h in
    (ground arith, Lacks-of_test delims s hs)

module _ (delims : Bytes) where
  pub token_of-append :
      (f : Bytes) (d : ℕ) (rest : Bytes)
      → Lacks delims f
      → is_delim delims d ≡ true
      → token_of delims (f ++ d ∷ rest) ≡ f
  unfolding token_of
  token_of-append [] d rest h hd = rw hd
  token_of-append (c ∷ f) d rest (hc, h) hd = rw (hc, token_of-append f d rest h hd)

  pub after_token-append :
      (f : Bytes) (d : ℕ) (rest : Bytes)
      → Lacks delims f
      → is_delim delims d ≡ true
      → after_token delims (f ++ d ∷ rest) ≡ rest
  unfolding after_token
  after_token-append [] d rest h hd = rw hd
  after_token-append (c ∷ f) d rest (hc, h) hd = rw hc (after_token-append f d rest h hd)

  token_of_self : (f : Bytes) → Lacks delims f → token_of delims f ≡ f
  unfolding token_of
  token_of_self [] h = refl
  token_of_self (c ∷ f) (hc, h) = rw (hc, token_of_self f h)

  after_token_self : (f : Bytes) → Lacks delims f → after_token delims f ≡ []
  unfolding after_token
  after_token_self [] h = refl
  after_token_self (c ∷ f) (hc, h) = rw hc (after_token_self f h)

  -- A field with a delimiter behind it is returned, and the rest starts behind that delimiter.
  pub strtok-append :
      (f : Bytes) (d : ℕ) (rest : Bytes)
      → IsField delims f
      → is_delim delims d ≡ true
      → strtok delims (f ++ d ∷ rest) ≡ (some f, rest)
  unfolding strtok
  strtok-append [] d rest (h, _) hd = absurd (h refl)
  strtok-append (c ∷ f) d rest (_, (hc, h)) hd =
      rw hc (rw (hc, token_of-append f d rest h hd, after_token-append f d rest h hd))

  -- A delimiter in front is skipped.
  pub strtok-skip :
      (d : ℕ) (rest : Bytes)
      → is_delim delims d ≡ true
      → strtok delims (d ∷ rest) ≡ strtok delims rest
  unfolding strtok
  strtok-skip d rest hd = rw hd

  -- The last field is returned, and nothing is left.
  pub strtok_last : (f : Bytes) → IsField delims f → strtok delims f ≡ (some f, [])
  unfolding strtok
  strtok_last [] (h, _) = absurd (h refl)
  strtok_last (c ∷ f) (_, (hc, h)) = rw hc (rw (hc, token_of_self f h, after_token_self f h))

  pub strtok-nil : strtok delims [] ≡ (none, [])
  unfolding strtok
  strtok-nil = refl
