-- ===== src/Server/Wire.antt =====
-- The request texts of client/handlers.c, read back by the loop of handle_client.
use school_meals.Base.{
  ℕ, Bool, not, ◌&&◌, every, &&-eq-true, ◌≡◌, refl, ◌≢◌, ◌<◌, true, none, some, List, [], ◌∷◌, ◌++◌,
  All, All-append, arith, length, take-eq_self, ◌==◌,
}
use school_meals.CString.{Bytes, is_delim, bytes, bytes_eq, cut_at_zero, snprintf}
use school_meals.CString.Tokens.{
  IsField, Lacks, strtok-append, strtok-skip, strtok_last, strtok-nil,
}
use school_meals.Protocol.{buffer_size, cmd_delimiter}
use school_meals.Protocol.Requests.{
  joined, login_request, register_request, update_request, meal_request, child_meal_request,
}
use school_meals.Server.Request.{Params, next, params_of, parse_request}

-- No byte is zero, as in every C string.
abbrev pub IsString : Bytes → Type 0
IsString = All (λ c. c ≢ 0)

-- A string that can be sent as a parameter.
pub record IsParam (f : Bytes) : Type 0 where
  pub field : IsField cmd_delimiter f
  pub string : IsString f

pub cut_at_zero_self : (s : Bytes) → IsString s → cut_at_zero s ≡ s
unfolding cut_at_zero
cut_at_zero_self [] h = refl
cut_at_zero_self (c ∷ s) (hc, h) = ground (arith, cut_at_zero_self s h)

joined-IsString : (fs : List Bytes) → All IsString fs → IsString (joined fs)
joined-IsString [] h = tt
joined-IsString (f ∷ []) (h, _) = h
joined-IsString (f ∷ g ∷ fs) (hf, h) =
    All-append _ f _ hf (omega arith, (omega arith, joined-IsString (g ∷ fs) h))

-- A request that fits the buffer arrives as it was put together.
pub cut_at_zero-request :
    (fs : List Bytes)
    → All IsString fs
    → length (joined fs) < buffer_size
    → cut_at_zero (snprintf buffer_size (joined fs)) ≡ joined fs
cut_at_zero-request fs h fits =
    rw (take-eq_self 4095 (joined fs) (omega arith))
      (cut_at_zero_self (joined fs) (joined-IsString fs h))

-- One parameter with more behind it, and the last one.
pub next-append :
    (f rest : Bytes)
    → IsField cmd_delimiter f
    → next (f ++ b'/' ∷ b'/' ∷ rest) ≡ (some f, b'/' ∷ rest)
next-append f rest h = strtok-append cmd_delimiter f b'/' (b'/' ∷ rest) h refl

pub next-skip : (rest : Bytes) → next (b'/' ∷ rest) ≡ next rest
next-skip rest = strtok-skip cmd_delimiter b'/' rest refl

pub next_last : (f : Bytes) → IsField cmd_delimiter f → next f ≡ (some f, [])
next_last f h = strtok_last cmd_delimiter f h

-- A request of at least one parameter that fits the buffer is cut behind its command.
parse-joined :
    (cmd f : Bytes) (fs : List Bytes)
    → IsParam cmd
    → All IsString (f ∷ fs)
    → length (joined (cmd ∷ f ∷ fs)) < buffer_size
    → parse_request (snprintf buffer_size (joined (cmd ∷ f ∷ fs)))
      ≡ some (params_of cmd (b'/' ∷ joined (f ∷ fs)))
unfolding parse_request
parse-joined cmd f fs hc hs fits = rw (
  parse_request,
  cut_at_zero-request (cmd ∷ f ∷ fs) (hc.string, hs) fits,
  next-append cmd _ hc.field,
)

next-nil : next [] ≡ (none, [])
next-nil = strtok-nil cmd_delimiter

-- A literal is checked by evaluation.
abbrev is_param_byte : ℕ → Bool
is_param_byte c = not (is_delim cmd_delimiter c) && not (c == 0)

param_bytes : (s : Bytes) → every is_param_byte s ≡ true → Lacks cmd_delimiter s × IsString s
param_bytes [] h = (tt, tt)
param_bytes (c ∷ s) h =
    let (hc, hs) = &&-eq-true (is_param_byte c) (every is_param_byte s) h in
    let (fs, ss) = param_bytes s hs in
    let (p, q) = &&-eq-true (not (is_delim cmd_delimiter c)) (not (c == 0)) hc in
    ((ground arith, fs), (ground arith, ss))

pub IsParam-of_test : (s : Bytes) → s ≢ [] → every is_param_byte s ≡ true → IsParam s
IsParam-of_test s h t = let (f, z) = param_bytes s t in record { field = (h, f); string = z }

abbrev pub login_params : Bytes → Bytes → Params
login_params id pw = record {
  cmd = bytes "LOGIN";
  id = some id;
  pw = some pw;
  edu_office = none;
  school_name = none;
  date = none;
  child_id = none;
  period = none;
}

abbrev pub account_params : Bytes → Bytes → Bytes → Bytes → Bytes → Params
account_params cmd id pw edu_office school_name = record {
  cmd = cmd;
  id = some id;
  pw = some pw;
  edu_office = some edu_office;
  school_name = some school_name;
  date = none;
  child_id = none;
  period = none;
}

-- A LOGIN request of two parameters that fits the buffer is read back as those parameters.
pub parse-login_request :
    (id pw : Bytes)
    → IsParam id
    → IsParam pw
    → length (joined (bytes "LOGIN" ∷ id ∷ pw ∷ [])) < buffer_size
    → parse_request (login_request id pw) ≡ some (login_params id pw)
parse-login_request id pw hi hp fits =
    unfold login_request in
    rw
      (parse-joined (bytes "LOGIN") id (pw ∷ []) (IsParam-of_test _ (cc) refl)
        (hi.string, (hp.string, tt)) fits)
      (unfold params_of bytes_eq in
        simp (next-skip, next-append id _ hi.field, next_last pw hp.field, next-nil))

module _ (a b c d : Bytes) (ha : IsParam a) (hb : IsParam b) (hc : IsParam c) (hd : IsParam d) where
  -- A REGISTER_GENERAL request of four parameters that fits the buffer is read back as those
  -- parameters.
  pub parse-register_request :
      length (joined (bytes "REGISTER_GENERAL" ∷ a ∷ b ∷ c ∷ d ∷ [])) < buffer_size
      → parse_request (register_request a b c d)
        ≡ some (account_params (bytes "REGISTER_GENERAL") a b c d)
  parse-register_request fits =
      unfold register_request in
      rw
        (parse-joined (bytes "REGISTER_GENERAL") a (b ∷ c ∷ d ∷ []) (IsParam-of_test _ (cc) refl)
          (ha.string, (hb.string, (hc.string, (hd.string, tt)))) fits)
        (unfold params_of bytes_eq in
          simp (
            next-skip,
            next-append a _ ha.field,
            next-append b _ hb.field,
            next-append c _ hc.field,
            next_last d hd.field,
            next-nil,
          ))

  -- So is an UPDATE request.
  pub parse-update_request :
      length (joined (bytes "UPDATE" ∷ a ∷ b ∷ c ∷ d ∷ [])) < buffer_size
      → parse_request (update_request a b c d) ≡ some (account_params (bytes "UPDATE") a b c d)
  parse-update_request fits =
      unfold update_request in
      rw
        (parse-joined (bytes "UPDATE") a (b ∷ c ∷ d ∷ []) (IsParam-of_test _ (cc) refl)
          (ha.string, (hb.string, (hc.string, (hd.string, tt)))) fits)
        (unfold params_of bytes_eq in
          simp (
            next-skip,
            next-append a _ ha.field,
            next-append b _ hb.field,
            next-append c _ hc.field,
            next_last d hd.field,
            next-nil,
          ))

module _ (a b c : Bytes) (ha : IsParam a) (hb : IsParam b) (hc : IsParam c) where
  -- A GET_MEAL request of three parameters that fits the buffer is read back as an office, a school
  -- and a date.
  pub parse-meal_request :
      length (joined (bytes "GET_MEAL" ∷ a ∷ b ∷ c ∷ [])) < buffer_size
      → parse_request (meal_request a b c)
        ≡ some (record {
          cmd = bytes "GET_MEAL";
          id = none;
          pw = none;
          edu_office = some a;
          school_name = some b;
          date = some c;
          child_id = none;
          period = none;
        })
  parse-meal_request fits =
      unfold meal_request in
      rw
        (parse-joined (bytes "GET_MEAL") a (b ∷ c ∷ []) (IsParam-of_test _ (cc) refl)
          (ha.string, (hb.string, (hc.string, tt))) fits)
        (unfold params_of bytes_eq in
          simp
            (next-skip, next-append a _ ha.field, next-append b _ hb.field, next_last c hc.field))

  -- A GET_MULTI_MEAL request is read back as an office, a school and a period.
  pub parse-joined_multi_meal :
      length (joined (bytes "GET_MULTI_MEAL" ∷ a ∷ b ∷ c ∷ [])) < buffer_size
      → parse_request (snprintf buffer_size (joined (bytes "GET_MULTI_MEAL" ∷ a ∷ b ∷ c ∷ [])))
        ≡ some (record {
          cmd = bytes "GET_MULTI_MEAL";
          id = none;
          pw = none;
          edu_office = some a;
          school_name = some b;
          date = none;
          child_id = none;
          period = some c;
        })
  parse-joined_multi_meal fits =
      rw
        (parse-joined (bytes "GET_MULTI_MEAL") a (b ∷ c ∷ []) (IsParam-of_test _ (cc) refl)
          (ha.string, (hb.string, (hc.string, tt))) fits)
        (unfold params_of bytes_eq in
          simp
            (next-skip, next-append a _ ha.field, next-append b _ hb.field, next_last c hc.field))

  -- The three parameters of CHILD_MEAL are read as an id, a password and an office.
  pub parse-child_meal_request :
      length (joined (bytes "CHILD_MEAL" ∷ a ∷ b ∷ c ∷ [])) < buffer_size
      → parse_request (child_meal_request a b c)
        ≡ some (record {
          cmd = bytes "CHILD_MEAL";
          id = some a;
          pw = some b;
          edu_office = some c;
          school_name = none;
          date = none;
          child_id = none;
          period = none;
        })
  parse-child_meal_request fits =
      unfold child_meal_request in
      rw
        (parse-joined (bytes "CHILD_MEAL") a (b ∷ c ∷ []) (IsParam-of_test _ (cc) refl)
          (ha.string, (hb.string, (hc.string, tt))) fits)
        (unfold params_of bytes_eq in
          simp (
            next-skip,
            next-append a _ ha.field,
            next-append b _ hb.field,
            next_last c hc.field,
            next-nil,
          ))
