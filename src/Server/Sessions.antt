-- ===== src/Server/Sessions.antt =====
-- A registration that handle_client serves, and the login after it.
use school_meals.Base.{
  ◌≡◌, refl, ap, ◌<◌, ◌∙◌, Bool, true, false, some, [], ◌∷◌, ◌++◌, any, length, take-eq_self, arith,
}
use school_meals.CString.{Bytes, bytes, printed, snprintf}
use school_meals.CString.Tokens.{Lacks}
use school_meals.CString.Equal.{bytes_eq_refl}
use school_meals.Protocol.{buffer_size, cmd_delimiter, response, resp_success, role_general}
use school_meals.Protocol.Requests.{joined, login_request, register_request}
use school_meals.Db.{Engine, add_user}
use school_meals.Db.Tables.{UserRow, Tables, has_id, insert_user}
use school_meals.Db.Laws.{Sqlite, row_of}
use school_meals.Db.Refines.{is_user_exists-eq-any, add_user_refines}
use school_meals.Db.WellFormed.{WellFormed}
use school_meals.Db.WellFormed.Kept.{insert_user-WellFormed}
use school_meals.Neis.{MealService, codes, HasPlainCodes}
use school_meals.Server.Account.{register_general, register_with, added, user_of}
use school_meals.Server.Dispatch.{serve}
use school_meals.Server.Wire.{IsParam}
use school_meals.Server.Invariant.{quote, user_of-IsPlain, user_of-IsBounded, row_of-IsRow}
use school_meals.Server.Login.{find_user-append, login_answer, login_with_lem}
use school_meals.Server.Requests.{serve-login_request, serve-register_request, login_fits}

insert_user_fresh :
    (u : UserRow) (t : Tables) → any (has_id u.id) t.users ≡ false → (insert_user u t).0 ≡ true
unfolding insert_user
insert_user_fresh u t h = rw h

users-insert_user :
    (u : UserRow) (t : Tables)
    → any (has_id u.id) t.users ≡ false
    → (insert_user u t).1.users ≡ t.users ++ u ∷ []
unfolding insert_user
users-insert_user u t h = rw h

added-true :
    {Db : Type 0} (r : Bool × Db)
    → r.0 ≡ true
    → added r ≡ some (r.1, response resp_success (bytes "회원가입 성공") [] ∷ [])
added-true (true, db) h = refl
added-true (false, db) h = cc

-- The answer to a login into a new account.
answer_general :
    (id pw ec sc : Bytes)
    → length pw < 20
    → length ec < 10
    → length sc < 20
    → login_answer pw (some (row_of (user_of id pw [] (bytes role_general) ec sc)))
      ≡ response resp_success (bytes "로그인 성공") (
          snprintf 256
            (printed (ec ∷ cmd_delimiter ∷ sc ∷ cmd_delimiter ∷ bytes role_general ∷ [])))
answer_general id pw ec sc hp he hs = rw (
  take-eq_self 19 pw (omega arith),
  take-eq_self 49 ec (omega arith),
  take-eq_self 49 sc (omega arith),
  bytes_eq_refl pw,
)

module _ (e : Engine) (q : Sqlite e) (net : MealService) (hn : HasPlainCodes net) (db : e.Db) where
  -- A new id of at most 19 bytes is stored under itself.
  register_general_new :
      (id pw school ec sc : Bytes)
      → net.resolve_school_code school ≡ codes ec sc
      → Lacks quote id
      → Lacks quote pw
      → length id < 20
      → any (has_id id) (q.view db).users ≡ false
      → (db' : e.Db) × (register_general e net db id pw school
          ≡ some (db', response resp_success (bytes "회원가입 성공") [] ∷ []))
        × (q.view db'
            ≡ (insert_user (row_of (user_of id pw [] (bytes role_general) ec sc)) (q.view db)).1)
  register_general_new id pw school ec sc found hi hp short new =
      let u = user_of id pw [] (bytes role_general) ec sc in
      let r = add_user e db u in
      let refined =
        add_user_refines e q db u
          (user_of-IsPlain id pw ec sc hi hp (hn.plain school ec sc found).0
            (hn.plain school ec sc found).1)
          (user_of-IsBounded id pw ec sc) in
      let fresh =
        insert_user_fresh (row_of u) (q.view db) (rw (take-eq_self 19 id (omega arith)) new) in
      (
        r.1,
        unfold register_general register_with in
            rw (is_user_exists-eq-any e q db id, new, found)
              (added-true r (ap (λ s. s.0) refined ∙ fresh)),
        ap (λ s. s.1) refined,
      )

  -- In a well-formed database, a registration of a new id with a password, both of at most 19 bytes
  -- with no quote, and a school that has codes, sent in a request that fits the buffer, succeeds, and
  -- the login with them after it succeeds with the codes and the role GENERAL.
  pub register_then_login :
      (net' : MealService) (id pw office school ec sc : Bytes)
      → WellFormed (q.view db)
      → IsParam id
      → IsParam pw
      → IsParam office
      → IsParam school
      → length (joined (bytes "REGISTER_GENERAL" ∷ id ∷ pw ∷ office ∷ school ∷ [])) < buffer_size
      → net.resolve_school_code school ≡ codes ec sc
      → Lacks quote id
      → Lacks quote pw
      → length id < 20
      → length pw < 20
      → any (has_id id) (q.view db).users ≡ false
      → (db' : e.Db) × (serve e net db (register_request id pw office school)
          ≡ some (db', response resp_success (bytes "회원가입 성공") [] ∷ []))
        × (serve e net' db' (login_request id pw)
            ≡ some (
              db',
              response resp_success (bytes "로그인 성공") (
                    snprintf 256
                      (printed (ec ∷ cmd_delimiter ∷ sc ∷ cmd_delimiter ∷ bytes role_general ∷ [])))
                  ∷ [],
            ))
  register_then_login net' id pw o school ec sc wf pi pp po ps fits known hi hp si sp new =
      let (db', registered, stored) = register_general_new id pw school ec sc known hi hp si new in
      let short = hn.short school ec sc known in
      let u = row_of (user_of id pw [] (bytes role_general) ec sc) in
      let wf' : WellFormed (q.view db') =
        rw stored (insert_user-WellFormed u _ (row_of-IsRow id pw ec sc short.0 short.1) wf) in
      (
        db',
        serve-register_request e net db id pw o school pi pp po ps fits ∙ registered,
        serve-login_request e net' db' id pw pi pp (login_fits id pw si sp)
            ∙ login_with_lem e q db' wf' id pw
            ∙ ap (λ a. some (db', a ∷ []))
                (rw
                  (
                    stored,
                    users-insert_user u (q.view db) (rw (take-eq_self 19 id (omega arith)) new),
                    find_user-append id (q.view db).users u new
                        (rw (take-eq_self 19 id (omega arith)) (bytes_eq_refl id)),
                  )
                  (answer_general id pw ec sc sp short.0 short.1)),
      )
