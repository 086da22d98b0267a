-- ===== src/Neis/Fetch/Codes.antt =====
-- The bounds of what server/neis_api.c writes into the buffers of its callers.
use school_meals.Base.{
  ◌<◌, ◌≡◌, refl, subst, Bool-cases, Option-cases, inl, inr, Option, none, some, [], ◌∷◌, ◌>>=◌,
  ltb, length, arith,
}
use school_meals.CString.{Bytes}
use school_meals.CString.Tokens.{Lacks}
use school_meals.Protocol.{max_meal_len}
use school_meals.Neis.{Lookup, missing, codes, unterminated, HasPlainCodes}
use school_meals.Neis.Web.{Web}
use school_meals.Neis.Fetch.{
  copied_codes, codes_of, school_url, school_codes_in, school_row, get_school_codes, neis,
}

-- Codes that are found satisfy `P`.
abbrev Holds : (Bytes → Bytes → Type 0) → Lookup → Type 0
Holds P missing = Unit
Holds P (codes a b) = P a b
Holds P unterminated = Unit

module _ (web : Web) where
  open web use {Json, get_ex, get_string, is_null, array_get_idx}

  module _ (P : Bytes → Bytes → Type 0) where
    copied_codes-Holds :
        (o o' : Option Bytes)
        → ((a b : Bytes) → o ≡ some a → o' ≡ some b → length a < 10 → length b < 20 → P a b)
        → Holds P (copied_codes web o o')
    copied_codes-Holds (some a) (some b) h = elim (Bool-cases (ltb (length a) 10)) [
      | inl short ↦ elim (Bool-cases (ltb (length b) 20)) [
        | inl short' ↦ rw (short, short') (h a b refl refl (ground arith) (ground arith))
        | inr long ↦ rw (short, long) tt
      ]
      | inr long ↦ rw long tt
    ]
    copied_codes-Holds none o' h = tt
    copied_codes-Holds (some a) none h = tt

    -- What holds of the two texts of every school, short as they are
    abbrev Reads : Type 0
    Reads =
        (school edu_code_obj school_code_obj : Json) (a b : Bytes)
        → get_ex school "ATPT_OFCDC_SC_CODE" ≡ some edu_code_obj
        → get_ex school "SD_SCHUL_CODE" ≡ some school_code_obj
        → get_string edu_code_obj ≡ some a
        → get_string school_code_obj ≡ some b
        → length a < 10
        → length b < 20
        → P a b

    codes_of-Holds :
        (school : Json)
        → Reads
        → (o o' : Option Json) → get_ex school "ATPT_OFCDC_SC_CODE" ≡ o
        → get_ex school "SD_SCHUL_CODE" ≡ o'
        → Holds P (codes_of web o o')
    codes_of-Holds school reads (some edu) (some code) h h' =
        copied_codes-Holds (get_string edu) (get_string code)
          (λ a b is is'. reads school edu code a b h h' is is')
    codes_of-Holds school reads (some edu) none h h' = tt
    codes_of-Holds school reads none o' h h' = tt

    school_codes_in-Holds : Reads → (row : Option Json) → Holds P (school_codes_in web row)
    unfolding school_codes_in
    school_codes_in-Holds reads none = tt
    school_codes_in-Holds reads (some row) = elim (Bool-cases (is_null (array_get_idx row 0))) [
      | inl absent ↦ rw absent tt
      | inr there ↦ rw there (codes_of-Holds (array_get_idx row 0) reads _ _ refl refl)
    ]

    get_school_codes-Holds : Reads → (name : Bytes) → Holds P (get_school_codes web name)
    unfolding get_school_codes
    get_school_codes-Holds reads name = elim (Option-cases (school_url web name)) [
      | inl cut ↦ rw (get_school_codes, cut) tt
      | inr (url, is) ↦ rw (get_school_codes, is) (school_codes_in-Holds reads (school_row web url))
    ]

    get_school_codes-found :
        (name edu_code school_code : Bytes)
        → Reads
        → get_school_codes web name ≡ codes edu_code school_code
        → P edu_code school_code
    get_school_codes-found name edu_code school_code reads h =
        subst (Holds P) h (get_school_codes-Holds reads name)

  pub get_school_codes-bounds :
      (name edu_code school_code : Bytes)
      → get_school_codes web name ≡ codes edu_code school_code
      → (length edu_code < 10) × (length school_code < 20)
  get_school_codes-bounds name edu_code school_code =
      get_school_codes-found (λ a b. (length a < 10) × (length b < 20)) name edu_code school_code
        (λ school edu code a b _ _ _ _ short short'. (short, short'))

  -- The codes of the schools that the register lists hold no quote.
  pub record IsPlainRegister : Type 0 where
    pub edu_code :
        (school obj : Json) (s : Bytes)
        → get_ex school "ATPT_OFCDC_SC_CODE" ≡ some obj
        → get_string obj ≡ some s
        → Lacks (b'\'' ∷ []) s
    pub school_code :
        (school obj : Json) (s : Bytes)
        → get_ex school "SD_SCHUL_CODE" ≡ some obj
        → get_string obj ≡ some s
        → Lacks (b'\'' ∷ []) s

  -- If no code in the school register holds a quote, the functions of neis_api.c are a meal service
  -- with plain codes, as the theorems on the server ask for.
  pub neis-HasPlainCodes : IsPlainRegister → HasPlainCodes (neis web)
  neis-HasPlainCodes register = record {
    short = get_school_codes-bounds;
    plain = λ name a b.
        get_school_codes-found (λ a b. Lacks (b'\'' ∷ []) a × Lacks (b'\'' ∷ []) b) name a b
          (λ school edu code a b is is' text text' _ _.
            (register.edu_code school edu a is text, register.school_code school code b is' text'));
  }

  abbrev TextFits : Option (Option Bytes) → Type 0
  TextFits none = Unit
  TextFits (some none) = Unit
  TextFits (some (some text)) = length text < max_meal_len
