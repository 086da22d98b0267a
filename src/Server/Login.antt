-- ===== src/Server/Login.antt =====
-- What LOGIN answers, read off the table of users.
use school_meals.Base.{
  ◌≡◌, refl, subst, Bool, true, false, Option, none, some, List, [], ◌∷◌, ◌++◌, map, keep, any, All,
  arith, if◌then◌else◌, length, lt→ltb, Bool-cases, inl, inr, ◌>>=◌,
}
use school_meals.CString.{Bytes, bytes, bytes_eq, printed, snprintf}
use school_meals.CString.Equal.{bytes_eq_sound}
use school_meals.Protocol.{cmd_delimiter, response, resp_success, resp_error}
use school_meals.Db.{Engine, UserBuffer, first_user, user_of_row}
use school_meals.Db.Tables.{UserRow, has_id, has_login}
use school_meals.Db.Laws.{Sqlite, user_columns}
use school_meals.Db.Refines.{verify_user-eq-any, get_user-eq-first}
use school_meals.Db.WellFormed.{WellFormed, IsRow, Unique}
use school_meals.Server.Account.{login_with, logged_in}

-- The first row of an id.
abbrev pub find_user : Bytes → List UserRow → Option UserRow
find_user id [] = none
find_user id (u ∷ us) = if bytes_eq u.id id then some u else find_user id us

abbrev pub text_of : Option Bytes → Bytes
text_of none = []
text_of (some s) = s

-- The office, the school and the role of a row, as the client reads them.
abbrev pub login_data : UserRow → Bytes
login_data u = snprintf 256 (
    printed
      (text_of u.edu_office ∷ cmd_delimiter ∷ text_of u.school_name ∷ cmd_delimiter ∷ u.role ∷ []))

abbrev pub login_answer : Bytes → Option UserRow → Bytes
login_answer pw none = response resp_error (bytes "로그인 실패") []
login_answer pw (some u) =
    if bytes_eq u.pw pw
    then response resp_success (bytes "로그인 성공") (login_data u)
    else response resp_error (bytes "로그인 실패") []

pub find_user-eq-none :
    (id : Bytes) (us : List UserRow) → any (has_id id) us ≡ false → find_user id us ≡ none
find_user-eq-none id [] h = refl
find_user-eq-none id (u ∷ us) h = ground (arith, find_user-eq-none id us)

pub find_user-append :
    (id : Bytes) (us : List UserRow) (u : UserRow)
    → any (has_id id) us ≡ false
    → bytes_eq u.id id ≡ true
    → find_user id (us ++ u ∷ []) ≡ some u
find_user-append id [] u h e = rw e
find_user-append id (v ∷ us) u h e = ground (arith, find_user-append id us u)

abbrev pub found : Option UserRow → Bool
found none = false
found (some u) = true

pub any-eq-found : (id : Bytes) (us : List UserRow) → any (has_id id) us ≡ found (find_user id us)
any-eq-found id [] = refl
any-eq-found id (u ∷ us) = ground (arith, any-eq-found id us)

-- Where no row has the id, none has the id and the password.
any-login_absent :
    (id pw : Bytes) (us : List UserRow)
    → any (has_id id) us ≡ false
    → any (has_login id pw) us ≡ false
any-login_absent id pw [] h = refl
any-login_absent id pw (u ∷ us) h = ground (arith, any-login_absent id pw us)

abbrev matches : Bytes → Option UserRow → Bool
matches pw none = false
matches pw (some u) = bytes_eq u.pw pw

-- The id is a key, so the password that counts is that of the first row.
any-eq-matches :
    (id pw : Bytes) (us : List UserRow)
    → Unique us
    → any (has_login id pw) us ≡ matches pw (find_user id us)
any-eq-matches id pw [] h = refl
any-eq-matches id pw (u ∷ us) (hu, h) = elim (Bool-cases (bytes_eq u.id id)) [
  | inl e ↦
      let same = bytes_eq_sound u.id id e in
      let absent = any-login_absent id pw us (subst (λ i. any (has_id i) us ≡ false) same hu) in
      rw e (ground (arith, absent))
  | inr e ↦ rw e (any-eq-matches id pw us h)
]

abbrev pub one_user : Bool → Option UserRow → Option (Option UserBuffer)
one_user z none = some none
one_user z (some u) = do b ← user_of_row z (user_columns u); some (some b)

pub first_user-find :
    (z : Bool) (id : Bytes) (us : List UserRow)
    → first_user z (map user_columns (keep (has_id id) us)) ≡ one_user z (find_user id us)
first_user-find z id [] = refl
first_user-find z id (u ∷ us) = elim (Bool-cases (bytes_eq u.id id)) [
  | inl e ↦ rw e
  | inr e ↦ rw e (first_user-find z id us)
]

pub find_user-IsRow :
    (id : Bytes) (us : List UserRow) (u : UserRow)
    → All IsRow us
    → find_user id us ≡ some u
    → IsRow u
find_user-IsRow id [] u h e = cc
find_user-IsRow id (v ∷ us) u (hv, h) e = elim (Bool-cases (bytes_eq v.id id)) [
  | inl b ↦ let same = rw b at e in let eq : v ≡ u = cc same in subst IsRow eq hv
  | inr b ↦ find_user-IsRow id us u h (rw b at e)
]

module _ (e : Engine) (db : e.Db) where
  -- The fields that LOGIN prints are terminated, so it answers with the data of the row.
  logged_in-row :
      (id pw role : Bytes) (name edu_office school_name : Option Bytes)
      → let u : UserRow = record {
        id = id;
        pw = pw;
        name = name;
        role = role;
        edu_office = edu_office;
        school_name = school_name;
      } in
        IsRow u
        → (one_user false (some u) >>= logged_in e db)
          ≡ some (db, response resp_success (bytes "로그인 성공") (login_data u) ∷ [])
  unfolding user_of_row
  logged_in-row id pw role name (some edu) (some school) h = rw (
    lt→ltb (length edu) 49 h.edu_office,
    lt→ltb (length school) 49 h.school_name,
    lt→ltb (length role) 19 h.role,
  )
  logged_in-row id pw role name none school h = absurd h.edu_office
  logged_in-row id pw role name (some edu) none h = absurd h.school_name

module _ (e : Engine) (q : Sqlite e) (db : e.Db) (h : WellFormed (q.view db)) where
  login_found :
      (pw : Bytes) (o : Option UserRow)
      → ((u : UserRow) → o ≡ some u → IsRow u)
      → (if matches pw o
          then (one_user false o >>= logged_in e db)
          else some (db, response resp_error (bytes "로그인 실패") [] ∷ []))
        ≡ some (db, login_answer pw o ∷ [])
  login_found pw none r = refl
  login_found pw (some u) r = elim (Bool-cases (bytes_eq u.pw pw)) [
    | inl same ↦
        rw same (logged_in-row e db u.id u.pw u.role u.name u.edu_office u.school_name (r u refl))
    | inr other ↦ rw other
  ]

  -- In a well-formed database, the login leaves the database as it is, and its one answer is
  -- success with the data of the row of the id exactly if the password is that of the row.
  pub login_with_lem :
      (id pw : Bytes)
      → login_with e db id pw ≡ some (db, login_answer pw (find_user id (q.view db).users) ∷ [])
  unfolding login_with
  login_with_lem id pw =
      rw
        (
          login_with,
          verify_user-eq-any e q db id pw,
          any-eq-matches id pw _ h.ids,
          get_user-eq-first e q false db id,
          first_user-find false id (q.view db).users,
        )
        (login_found pw (find_user id (q.view db).users) (λ u. find_user-IsRow id _ u h.rows))
