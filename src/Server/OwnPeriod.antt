-- ===== src/Server/OwnPeriod.antt =====
-- The query of a period for a user's own school.
use school_meals.Base.{
  ℕ, zero, suc, ◌≤◌, ◌<◌, ◌≡◌, ◌≢◌, refl, ◌∙◌, ap, Bool, true, false, not, some, [], ◌∷◌, ◌++◌,
  ◌>>=◌, ◌==◌, every, &&-eq-true, length, length-append, All-append, arith,
}
use school_meals.CString.{Bytes, bytes, bytes_eq, isdigit}
use school_meals.Protocol.{buffer_size, cmd_delimiter}
use school_meals.Protocol.Requests.{joined, multi_meal_request}
use school_meals.Db.{Engine}
use school_meals.Neis.{MealService}
use school_meals.Input.{validate_date_format}
use school_meals.Input.Dates.{validate_date_format_iff}
use school_meals.Server.Request.{
  scan_upto, drop_spaces, isspace, parse_period, split_period, end_date_of,
}
use school_meals.Server.Meal.{is_code, meals_found, period_with, meals_between, get_multi_meal}
use school_meals.Server.Dispatch.{dispatch, serve_params, serve}
use school_meals.Server.OwnMeal.{date-IsParam, school_codes-code}
use school_meals.Server.Wire.{IsParam, parse-joined_multi_meal}

-- A run of bytes that pass the test, up to the end or to one that does not
scan_upto-end :
    (n : ℕ) (test : ℕ → Bool) (s : Bytes)
    → every test s ≡ true
    → length s ≤ n
    → scan_upto n test s ≡ (s, [])
unfolding scan_upto
scan_upto-end zero test [] h fits = refl
scan_upto-end zero test (c ∷ s) h fits = absurd (omega arith)
scan_upto-end (suc n) test [] h fits = refl
scan_upto-end (suc n) test (c ∷ s) h fits =
    let (hc, hs) = &&-eq-true (test c) (every test s) h in
    rw (hc, scan_upto-end n test s hs (omega arith)) refl

scan_upto-stop :
    (n : ℕ) (test : ℕ → Bool) (s : Bytes) (d : ℕ) (rest : Bytes)
    → every test s ≡ true
    → length s ≤ n
    → test d ≡ false
    → scan_upto n test (s ++ d ∷ rest) ≡ (s, d ∷ rest)
unfolding scan_upto
scan_upto-stop zero test [] d rest h fits stop = refl
scan_upto-stop zero test (c ∷ s) d rest h fits stop = absurd (omega arith)
scan_upto-stop (suc n) test [] d rest h fits stop = rw stop refl
scan_upto-stop (suc n) test (c ∷ s) d rest h fits stop =
    let (hc, hs) = &&-eq-true (test c) (every test s) h in
    rw (hc, scan_upto-stop n test s d rest hs (omega arith) stop) refl

digits-pass :
    (test : ℕ → Bool) (s : Bytes)
    → ((c : ℕ) → isdigit c ≡ true → test c ≡ true)
    → every isdigit s ≡ true
    → every test s ≡ true
digits-pass test [] f h = refl
digits-pass test (c ∷ s) f h =
    let (hc, hs) = &&-eq-true (isdigit c) (every isdigit s) h in
    rw (f c hc, digits-pass test s f hs) refl

not_dash : (c : ℕ) → isdigit c ≡ true → not (c == b'-') ≡ true
not_dash c h = ground arith

not_space : (c : ℕ) → isdigit c ≡ true → not (isspace c) ≡ true
not_space c h = ground arith

drop_spaces-digits : (s : Bytes) → every isdigit s ≡ true → drop_spaces s ≡ s
unfolding drop_spaces
drop_spaces-digits [] h = refl
drop_spaces-digits (c ∷ s) h =
    let (hc, hs) = &&-eq-true (isdigit c) (every isdigit s) h in
    let solid : isspace c ≡ false = ground (arith, not_space c hc) in rw solid refl

end_date_of-some :
    (start_date s : Bytes) → s ≢ [] → end_date_of start_date (s, []) ≡ some (start_date, s)
end_date_of-some start_date [] h = absurd (h refl)
end_date_of-some start_date (c ∷ s) h = refl

split_period-dash :
    (s rest : Bytes)
    → s ≢ []
    → split_period (s, b'-' ∷ rest)
      ≡ end_date_of s (scan_upto 10 (λ b. not (isspace b)) (drop_spaces rest))
split_period-dash [] rest h = absurd (h refl)
split_period-dash (c ∷ s) rest h = refl

-- Two dates with a dash between them, as the client prints a period, are read back by the server.
pub parse_period-dates :
    (start_date end_date : Bytes)
    → validate_date_format start_date ≡ true
    → validate_date_format end_date ≡ true
    → parse_period (start_date ++ b'-' ∷ end_date) ≡ some (start_date, end_date)
unfolding parse_period
parse_period-dates s e hs he =
    let (s8, sd, _) = (validate_date_format_iff s).0 hs in
    let (e8, ed, _) = (validate_date_format_iff e).0 he in
    ap split_period (
      scan_upto-stop 10 (λ c. not (c == b'-')) s b'-' e (digits-pass _ s not_dash sd) (omega arith)
        refl)
    ∙ split_period-dash s e ((date-IsParam s hs).0.field.0)
    ∙ ap (end_date_of s) (
        ap (scan_upto 10 (λ b. not (isspace b))) (drop_spaces-digits e ed)
        ∙ scan_upto-end 10 (λ b. not (isspace b)) e (digits-pass _ e not_space ed) (omega arith))
    ∙ end_date_of-some s e ((date-IsParam e he).0.field.0)

append-not_nil : (s t : Bytes) → s ≢ [] → s ++ t ≢ []
append-not_nil [] t h = absurd (h refl)
append-not_nil (c ∷ s) t h = λ same. cc

period-IsParam :
    (start_date end_date : Bytes)
    → validate_date_format start_date ≡ true
    → validate_date_format end_date ≡ true
    → IsParam (start_date ++ b'-' ∷ end_date)
period-IsParam s e hs he =
    let (ps, _) = date-IsParam s hs in
    let (pe, _) = date-IsParam e he in
    record {
      field = (
        append-not_nil s (b'-' ∷ e) ps.field.0,
        All-append _ s (b'-' ∷ e) ps.field.1 (refl, pe.field.1),
      );
      string = All-append _ s (b'-' ∷ e) ps.string ((λ h. omega arith), pe.string);
    }

period_request-fits :
    (ec sc period : Bytes)
    → length ec < 10
    → length sc < 20
    → length period ≡ 17
    → length (joined (bytes "GET_MULTI_MEAL" ∷ ec ∷ sc ∷ period ∷ [])) < buffer_size
period_request-fits ec sc period he hs hp = omega (
  arith,
  length-append {0} ec (cmd_delimiter ++ (sc ++ (cmd_delimiter ++ period))),
  length-append {0} sc (cmd_delimiter ++ period),
)

module _ (e : Engine) (net : MealService) (db : e.Db) where
  serve-multi_meal_request :
      (ec sc start_date end_date : Bytes)
      → IsParam ec
      → IsParam sc
      → IsParam (start_date ++ b'-' ∷ end_date)
      → length (joined (bytes "GET_MULTI_MEAL" ∷ ec ∷ sc ∷ (start_date ++ b'-' ∷ end_date) ∷ []))
        < buffer_size
      → serve e net db (multi_meal_request ec sc start_date end_date)
        ≡ meals_between net db ec sc (parse_period (start_date ++ b'-' ∷ end_date))
  unfolding serve serve_params dispatch get_multi_meal bytes_eq multi_meal_request
  serve-multi_meal_request ec sc s t pe ps pp fits =
      rw (parse-joined_multi_meal ec sc (s ++ b'-' ∷ t) pe ps pp fits)

  -- The client's query for two codes as a login returns them, and for two accepted dates, asks the
  -- meal service once, for these codes and dates, and sends the meals or the error.
  pub serve-own_multi_meal_request :
      (ec sc start_date end_date : Bytes)
      → IsParam ec
      → IsParam sc
      → is_code sc ≡ true
      → length ec < 10
      → length sc < 20
      → validate_date_format start_date ≡ true
      → validate_date_format end_date ≡ true
      → serve e net db (multi_meal_request ec sc start_date end_date)
        ≡ (net.get_meals_period_from_neis ec sc start_date end_date >>= meals_found net db)
  unfolding meals_between period_with
  serve-own_multi_meal_request ec sc s t pe ps code he hs vs vt =
      let (_, s8) = date-IsParam s vs in
      let (_, t8) = date-IsParam t vt in
      serve-multi_meal_request ec sc s t pe ps (period-IsParam s t vs vt) (
        period_request-fits ec sc (s ++ b'-' ∷ t) he hs (omega (arith, length-append s (b'-' ∷ t))))
      ∙ ap (meals_between net db ec sc) (parse_period-dates s t vs vt)
      ∙ ap (period_with net db s t) (school_codes-code e net db ec sc code he hs)
