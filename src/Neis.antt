-- ===== src/Neis.antt =====
-- What the server asks of server/neis_api.c.
pub mod Web
pub mod Curl
pub mod Menu
pub mod Period
pub mod Fetch
use school_meals.Base.{◌<◌, ◌≡◌, Option, [], ◌∷◌, length}
use school_meals.CString.{Bytes}
use school_meals.CString.Tokens.{Lacks}

-- resolve_school_code: false, or the two codes that it wrote into edu_code[10] and
-- school_code[20]; `unterminated` is a code that left no room for a terminator.
pub data Lookup : Type 0 where
  missing : Lookup
  codes : Bytes → Bytes → Lookup
  unterminated : Lookup

-- In the two queries the outer `none` is undefined behaviour, and the inner one the value false.
pub record MealService : Type 0 where
  pub resolve_school_code : Bytes → Lookup
  pub get_meal_from_neis : Bytes → Bytes → Bytes → Option (Option Bytes)
  pub get_meals_period_from_neis : Bytes → Bytes → Bytes → Bytes → Option (Option Bytes)

-- The codes of the school register are terminated strings with no quote in them.
pub record HasPlainCodes (net : MealService) : Type 0 where
  pub short :
      (school_name edu_code school_code : Bytes)
      → net.resolve_school_code school_name ≡ codes edu_code school_code
      → (length edu_code < 10) × (length school_code < 20)
  pub plain :
      (school_name edu_code school_code : Bytes)
      → net.resolve_school_code school_name ≡ codes edu_code school_code
      → Lacks (b'\'' ∷ []) edu_code × Lacks (b'\'' ∷ []) school_code
