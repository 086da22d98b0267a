-- ===== src/Input/Accepted.antt =====
-- What the prompts accept can be sent to the server, and stored by it.
use school_meals.Base.{
  ℕ, ◌≤◌, ◌<◌, ◌≡◌, ◌≢◌, refl, subst, Bool, Bool-cases, inl, inr, true, false, some, List, [], ◌∷◌,
  every, length, &&-eq-true, arith,
}
use school_meals.CString.{Bytes, isdigit, isalnum, is_delim}
use school_meals.CString.Tokens.{Lacks}
use school_meals.Protocol.{cmd_delimiter}
use school_meals.Server.Wire.{IsParam, IsString}
use school_meals.Server.Invariant.{quote}
use school_meals.Input.{is_valid_id, is_valid_password}
use school_meals.Input.Prompts.{safe_input, ask, get_id_input, get_password_input}

ask-accepted :
    (accepted : Bytes → Bool) (size : ℕ) (lines : List Bytes) (text : Bytes) (rest : List Bytes)
    → ask accepted size lines ≡ some (text, rest)
    → accepted text ≡ true
unfolding ask
ask-accepted accepted size [] text rest h = cc
ask-accepted accepted size (line ∷ lines) text rest h =
    elim (Bool-cases (accepted (safe_input size line))) [
      | inl taken ↦
          let same : safe_input size line ≡ text = cc (rw taken at h) in
          subst (λ t. accepted t ≡ true) same taken
      | inr refused ↦ ask-accepted accepted size lines text rest (rw refused at h)
    ]

-- A byte that no delimiter, no quote and no zero is.
abbrev IsPlainByte : ℕ → Type 0
IsPlainByte c = (is_delim cmd_delimiter c ≡ false) × (c ≢ 0) × (is_delim quote c ≡ false)

isalnum-IsPlainByte : (c : ℕ) → isalnum c ≡ true → IsPlainByte c
isalnum-IsPlainByte c h = (ground arith, ground arith, ground arith)

every-isalnum :
    (s : Bytes) → every isalnum s ≡ true → Lacks cmd_delimiter s × IsString s × Lacks quote s
every-isalnum [] h = (tt, tt, tt)
every-isalnum (c ∷ s) h =
    let (hc, hs) = &&-eq-true (isalnum c) (every isalnum s) h in
    let (d, z, q) = isalnum-IsPlainByte c hc in
    let (ds, zs, qs) = every-isalnum s hs in ((d, ds), (z, zs), (q, qs))

pub every-isdigit : (s : Bytes) → every isdigit s ≡ true → every isalnum s ≡ true
every-isdigit [] h = refl
every-isdigit (c ∷ s) h =
    let (hc, hs) = &&-eq-true (isdigit c) (every isdigit s) h in rw (hc, every-isdigit s hs)

-- What the server's own steps ask of a text: one parameter of a request, no quote in it, and short
-- enough for the fields of User.
abbrev pub IsStorable : Bytes → Type 0
IsStorable s = IsParam s × Lacks quote s × (length s < 20)

pub storable : (s : Bytes) → every isalnum s ≡ true → 1 ≤ length s → length s < 20 → IsStorable s
storable [] h some_text short = absurd (omega arith)
storable (c ∷ s) h some_text short =
    let (d, z, q) = every-isalnum (c ∷ s) h in
    (record { field = ((λ e. cc), d); string = z }, q, short)

valid_id-parts :
    (s : Bytes) → is_valid_id s ≡ true → (every isalnum s ≡ true) × (1 ≤ length s) × (length s < 20)
unfolding is_valid_id
valid_id-parts s h = (ground arith, ground arith, ground arith)

valid_password-parts :
    (s : Bytes)
    → is_valid_password s ≡ true
    → (every isdigit s ≡ true) × (1 ≤ length s) × (length s < 20)
unfolding is_valid_password
valid_password-parts s h = (ground arith, ground arith, ground arith)

pub is_valid_id-IsStorable : (id : Bytes) → is_valid_id id ≡ true → IsStorable id
is_valid_id-IsStorable id ok =
    let (alnum, some_text, short) = valid_id-parts id ok in storable id alnum some_text short

pub is_valid_password-IsStorable : (pw : Bytes) → is_valid_password pw ≡ true → IsStorable pw
is_valid_password-IsStorable pw ok =
    let (digits, some_text, short) = valid_password-parts pw ok in
    storable pw (every-isdigit pw digits) some_text short

-- An id that the prompt returns is one parameter of a request, has no quote, and is not cut to the
-- field of User: the registration of it is stored as it was typed.
pub get_id_input-IsStorable :
    (lines : List Bytes) (id : Bytes) (rest : List Bytes)
    → get_id_input lines ≡ some (id, rest)
    → IsStorable id
unfolding get_id_input
get_id_input-IsStorable lines id rest h =
    is_valid_id-IsStorable id (ask-accepted is_valid_id 20 lines id rest h)

-- A password that the prompt returns is one parameter of a request, has no quote, and is not cut to
-- the field of User.
pub get_password_input-IsStorable :
    (lines : List Bytes) (pw : Bytes) (rest : List Bytes)
    → get_password_input lines ≡ some (pw, rest)
    → IsStorable pw
unfolding get_password_input
get_password_input-IsStorable lines pw rest h =
    is_valid_password-IsStorable pw (ask-accepted is_valid_password 20 lines pw rest h)
