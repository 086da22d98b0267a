-- ===== src/Client/Sent/Plain.antt =====
-- What the server reads in a request of the client: a registration, whose texts go into an SQL text,
-- brings no quote.
use school_meals.Base.{
  ℕ, zero, suc, ◌+◌, ◌≤◌, ◌≡◌, refl, sym, subst, true, Option, none, some, [], ◌∷◌, ◌++◌, length,
  take, arith,
}
use school_meals.CString.{Bytes, bytes, bytes_eq, cut_at_zero, strtok}
use school_meals.Protocol.Requests.{
  joined, meal_request, multi_meal_request, login_request, register_request, update_request,
  delete_request,
}
use school_meals.Input.Accepted.{IsStorable}
use school_meals.Server.Request.{
  Params, params_of, common_params, meal_params, multi_meal_params, parse_request,
}
use school_meals.Server.Wire.{IsString, IsParam, next-append, next-skip}
use school_meals.Server.Invariant.{PlainText}
use school_meals.Client.Sent.{
  IsSent, sends_login, sends_register, sends_update, sends_delete, sends_meal, sends_multi_meal,
}

-- A request that is no registration, or one whose id and password hold no quote
abbrev pub IsPlain : Option Params → Type 0
IsPlain none = Unit
IsPlain (some p) =
    bytes_eq p.cmd (bytes "REGISTER_GENERAL") ≡ true → PlainText p.id × PlainText p.pw

login_request-IsPlain : (id pw : Bytes) → IsPlain (parse_request (login_request id pw))
unfolding login_request parse_request params_of cut_at_zero strtok common_params bytes_eq
login_request-IsPlain id pw h = cc

update_request-IsPlain :
    (id pw edu_office school_name : Bytes)
    → IsPlain (parse_request (update_request id pw edu_office school_name))
unfolding update_request parse_request params_of cut_at_zero strtok common_params bytes_eq
update_request-IsPlain id pw edu_office school_name h = cc

delete_request-IsPlain : (id : Bytes) → IsPlain (parse_request (delete_request id))
unfolding delete_request parse_request params_of cut_at_zero strtok common_params bytes_eq
delete_request-IsPlain id h = cc

meal_request-IsPlain :
    (edu_office school_name date : Bytes)
    → IsPlain (parse_request (meal_request edu_office school_name date))
unfolding meal_request parse_request params_of cut_at_zero strtok meal_params bytes_eq
meal_request-IsPlain edu_office school_name date h = cc

multi_meal_request-IsPlain :
    (edu_office school_name start_date end_date : Bytes)
    → IsPlain (parse_request (multi_meal_request edu_office school_name start_date end_date))
unfolding multi_meal_request parse_request params_of cut_at_zero strtok multi_meal_params bytes_eq
multi_meal_request-IsPlain edu_office school_name start_date end_date h = cc

-- A text without a zero that has room in a buffer arrives, and the delimiter behind it.
arrives :
    (s t : Bytes) (n : ℕ)
    → IsString s
    → length s + 2 ≤ n
    → (m : ℕ) × (n ≡ length s + 2 + m)
      × (cut_at_zero (take n (s ++ b'/' ∷ b'/' ∷ t)) ≡ s ++ b'/' ∷ b'/' ∷ cut_at_zero (take m t))
unfolding cut_at_zero
arrives [] t zero h room = absurd (omega arith)
arrives [] t (suc zero) h room = absurd (omega arith)
arrives [] t (suc (suc n)) h room = (n, omega arith, refl)
arrives (c ∷ s) t zero h room = absurd (omega arith)
arrives (c ∷ s) t (suc n) (hc, h) room =
    let (m, is, same) = arrives s t n h (omega arith) in (m, omega arith, ground (arith, same))

register_request-params :
    (id pw edu_office school_name : Bytes)
    → parse_request (register_request id pw edu_office school_name)
      ≡ some (
          common_params
            (bytes "REGISTER_GENERAL")
            (b'/' ∷ cut_at_zero (take 4077 (joined (id ∷ pw ∷ edu_office ∷ school_name ∷ [])))))
unfolding register_request parse_request params_of cut_at_zero strtok bytes_eq
register_request-params id pw edu_office school_name = refl

abbrev HasLogin : Bytes → Bytes → Params → Type 0
HasLogin id pw p = (p.id ≡ some id) × (p.pw ≡ some pw)

common_params-HasLogin :
    (cmd id pw rest : Bytes)
    → IsParam id
    → IsParam pw
    → HasLogin id pw (common_params cmd (b'/' ∷ (id ++ b'/' ∷ b'/' ∷ (pw ++ b'/' ∷ b'/' ∷ rest))))
unfolding common_params
common_params-HasLogin cmd id pw rest hi hp =
    rw
      (
        next-skip (id ++ b'/' ∷ b'/' ∷ (pw ++ b'/' ∷ b'/' ∷ rest)),
        next-append id (pw ++ b'/' ∷ b'/' ∷ rest) hi.field,
        next-skip (pw ++ b'/' ∷ b'/' ∷ rest),
        next-append pw rest hp.field,
      )
      ((refl, refl))

register_request-HasLogin :
    (id pw edu_office school_name : Bytes)
    → IsStorable id
    → IsStorable pw
    → HasLogin id pw (
        common_params
          (bytes "REGISTER_GENERAL")
          (b'/' ∷ cut_at_zero (take 4077 (joined (id ∷ pw ∷ edu_office ∷ school_name ∷ [])))))
register_request-HasLogin id pw o s (hi, qi, si) (hp, qp, sp) =
    let behind = joined (o ∷ s ∷ []) in
    let (m, is, same) = arrives id (pw ++ b'/' ∷ b'/' ∷ behind) 4077 hi.string (omega arith) in
    let (k, _, same') = arrives pw behind m hp.string (omega arith) in
    rw (same, same') (common_params-HasLogin _ id pw _ hi hp)

register_request-IsPlain :
    (id pw edu_office school_name : Bytes)
    → IsStorable id
    → IsStorable pw
    → IsPlain (parse_request (register_request id pw edu_office school_name))
register_request-IsPlain id pw o s hi hp =
    let (same, same') = register_request-HasLogin id pw o s hi hp in
    rw (register_request-params id pw o s)
      (λ c. (subst PlainText (sym same) hi.1, subst PlainText (sym same') hp.1))

-- Every request of the client is no registration, or one whose id and password hold no quote.
pub IsSent-IsPlain : (request : Bytes) → IsSent request → IsPlain (parse_request request)
IsSent-IsPlain request (sends_login id pw) = login_request-IsPlain id pw
IsSent-IsPlain request (sends_register id pw o s hi hp) = register_request-IsPlain id pw o s hi hp
IsSent-IsPlain request (sends_update id pw o s) = update_request-IsPlain id pw o s
IsSent-IsPlain request (sends_delete id) = delete_request-IsPlain id
IsSent-IsPlain request (sends_meal o s date) = meal_request-IsPlain o s date
IsSent-IsPlain request (sends_multi_meal o s a b) = multi_meal_request-IsPlain o s a b
