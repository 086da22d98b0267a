-- ===== src/Server/Request.antt =====
-- The first half of the loop body of handle_client: the command, and its parameters by strtok.
use school_meals.Base.{
  ℕ, zero, suc, String, Bool, true, false, not, ◌||◌, ◌&&◌, leb, Option, none, some, List, [], ◌∷◌,
  ◌==◌, if◌then◌else◌,
}
use school_meals.CString.{Bytes, bytes, bytes_eq, cut_at_zero, strtok}
use school_meals.Protocol.{cmd_delimiter, response}

-- The pointers that the loop body sets: `none` is NULL.
pub record Params : Type 0 where
  pub cmd : Bytes
  pub id : Option Bytes
  pub pw : Option Bytes
  pub edu_office : Option Bytes
  pub school_name : Option Bytes
  pub date : Option Bytes
  pub child_id : Option Bytes
  pub period : Option Bytes

abbrev pub next : Bytes → Option Bytes × Bytes
next = strtok cmd_delimiter

-- GET_MEAL//edu_office//school_name//date
unfoldable pub meal_params : Bytes → Bytes → Params
meal_params cmd rest =
    let (edu_office, r1) = next rest in
    let (school_name, r2) = next r1 in
    let (date, r3) = next r2 in
    record {
      cmd = cmd;
      id = none;
      pw = none;
      edu_office = edu_office;
      school_name = school_name;
      date = date;
      child_id = none;
      period = none;
    }

-- GET_MULTI_MEAL//edu_office//school_name//period
unfoldable pub multi_meal_params : Bytes → Bytes → Params
multi_meal_params cmd rest =
    let (edu_office, r1) = next rest in
    let (school_name, r2) = next r1 in
    let (period, r3) = next r2 in
    record {
      cmd = cmd;
      id = none;
      pw = none;
      edu_office = edu_office;
      school_name = school_name;
      date = none;
      child_id = none;
      period = period;
    }

-- Every other command takes the same seven parameters in order.
unfoldable pub common_params : Bytes → Bytes → Params
common_params cmd rest =
    let (id, r1) = next rest in
    let (pw, r2) = next r1 in
    let (edu_office, r3) = next r2 in
    let (school_name, r4) = next r3 in
    let (date, r5) = next r4 in
    let (child_id, r6) = next r5 in
    let (period, r7) = next r6 in
    record {
      cmd = cmd;
      id = id;
      pw = pw;
      edu_office = edu_office;
      school_name = school_name;
      date = date;
      child_id = child_id;
      period = period;
    }

unfoldable pub params_of : Bytes → Bytes → Params
unfolding meal_params multi_meal_params common_params
params_of cmd rest =
    if bytes_eq cmd (bytes "GET_MEAL")
    then meal_params cmd rest
    else if bytes_eq cmd (bytes "GET_MULTI_MEAL")
    then multi_meal_params cmd rest
    else common_params cmd rest

abbrev parsed : Option Bytes × Bytes → Option Params
parsed (none, rest) = none
parsed (some cmd, rest) = some (params_of cmd rest)

-- The text that recv put into the buffer ends at its first zero byte.
unfoldable pub parse_request : Bytes → Option Params
unfolding params_of
parse_request received = parsed (next (cut_at_zero received))

-- What a request leaves: the database, and the texts handed to send, in order. `none` stands for
-- undefined behaviour.
abbrev pub Reply : Type 0 → Type 0
Reply Db = Option (Db × List Bytes)

abbrev pub say : {Db : Type 0} → Db → ℕ → String → Bytes → Reply Db
say db status message text = some (db, response status (bytes message) text ∷ [])

-- `if (a && b && …) { … } else` with the response RESP_INVALID_REQUEST, one pointer at a time
abbrev pub need : {Db : Type 0} → Db → Option Bytes → (Bytes → Reply Db) → Reply Db
need db none body = say db 0 "잘못된 요청" []
need db (some a) body = body a

-- The response to a write: RESP_DB_ERROR where the function of db_handler.c returned false
abbrev pub report : {Db : Type 0} → String → Bool × Db → Reply Db
report done (true, db) = say db 1 done []
report done (false, db) = say db 0 "데이터베이스 오류" []

-- sscanf's %n[…]: at most n bytes that pass the test, and what follows them
unfoldable pub scan_upto : ℕ → (ℕ → Bool) → Bytes → Bytes × Bytes
scan_upto zero test s = ([], s)
scan_upto (suc n) test [] = ([], [])
scan_upto (suc n) test (c ∷ s) =
    let (t, r) = scan_upto n test s in if test c then (c ∷ t, r) else ([], c ∷ s)

abbrev pub isspace : ℕ → Bool
isspace c = c == b' ' || (leb 9 c && leb c 13)

unfoldable pub drop_spaces : Bytes → Bytes
drop_spaces [] = []
drop_spaces (c ∷ s) = if isspace c then drop_spaces s else c ∷ s

abbrev pub end_date_of : Bytes → Bytes × Bytes → Option (Bytes × Bytes)
end_date_of start_date ([], rest) = none
end_date_of start_date (c ∷ t, rest) = some (start_date, c ∷ t)

abbrev pub split_period : Bytes × Bytes → Option (Bytes × Bytes)
split_period ([], rest) = none
split_period (c ∷ t, []) = none
split_period (c ∷ t, d ∷ rest) =
    if d == b'-'
    then end_date_of (c ∷ t) (scan_upto 10 (λ b. not (isspace b)) (drop_spaces rest))
    else none

-- sscanf(period, "%10[^-]-%10s", start_date, end_date), where it returns 2
unfoldable pub parse_period : Bytes → Option (Bytes × Bytes)
unfolding scan_upto drop_spaces
parse_period period = split_period (scan_upto 10 (λ c. not (c == b'-')) period)
