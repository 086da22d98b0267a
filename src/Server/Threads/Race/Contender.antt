-- ===== src/Server/Threads/Race/Contender.antt =====
-- A registration among other threads: what its next statement does while the id is free, and while
-- it is taken.
use school_meals.Base.{
  ◌≡◌, refl, ap, ◌∙◌, true, false, some, List, [], ◌∷◌, ◌++◌, any, inl, inr, ◌<◌, length,
  take-eq_self, arith, if◌then◌else◌,
}
use mathlib.Core.Logic.{◌⊎◌}
use school_meals.CString.{Bytes, bytes}
use school_meals.CString.Tokens.{Lacks}
use school_meals.CString.Equal.{bytes_eq_refl}
use school_meals.Protocol.{response, resp_success, resp_error, role_general}
use school_meals.Db.{Engine, add_user, is_user_exists}
use school_meals.Db.Tables.{Tables, UserRow, has_id, insert_user}
use school_meals.Db.Laws.{Sqlite, row_of, seen}
use school_meals.Db.Refines.{is_user_exists-eq-any, add_user_refines}
use school_meals.Db.WellFormed.Keys.{any-append}
use school_meals.Neis.{MealService, codes}
use school_meals.Server.Account.{user_of}
use school_meals.Server.Invariant.{quote, user_of-IsPlain, user_of-IsBounded}
use school_meals.Server.Threads.{Thread, finish, reads, run, tell, register_with_thread}
use school_meals.Server.Threads.Race.{thread_step}

abbrev pub row_for : Bytes → Bytes → Bytes → Bytes → UserRow
row_for id pw ec sc = row_of (user_of id pw [] (bytes role_general) ec sc)

-- The tables with a row behind the others of the users
abbrev pub with_user : UserRow → Tables → Tables
with_user u t = record t { users = t.users ++ u ∷ [] }

abbrev pub welcome : List Bytes
welcome = response resp_success (bytes "회원가입 성공") [] ∷ []

abbrev pub duplicate : List Bytes
duplicate = response resp_error (bytes "중복된 아이디") [] ∷ []

-- What a registration sends that comes too late
pub data Refusal : List Bytes → Type 0 where
  found : Refusal duplicate
  silent : Refusal []

module _ (e : Engine) (net : MealService) (id pw ec sc : Bytes) where
  abbrev pub inserting : Thread e.Db
  inserting = register_with_thread e net id pw (codes ec sc)

  abbrev pub asking : Thread e.Db
  asking = reads (λ db. if is_user_exists e db id then tell resp_error "중복된 아이디" [] else inserting)

  -- A registration that has not inserted its row
  pub data Racer : Thread e.Db → Type 0 where
    asks : Racer asking
    inserts : Racer inserting

  -- A registration whose id another one has taken
  pub data Loser : Thread e.Db → Type 0 where
    late : {t : Thread e.Db} → Racer t → Loser t
    refused : {texts : List Bytes} → Refusal texts → Loser (finish (some texts))

module _ (e : Engine) (q : Sqlite e) (net : MealService) (id pw ec sc : Bytes)
    (short : length id < 20) (plain_id : Lacks quote id) (plain_pw : Lacks quote pw)
    (plain_ec : Lacks quote ec) (plain_sc : Lacks quote sc) where
  inserted :
      (db : e.Db)
      → seen q.view (add_user e db (user_of id pw [] (bytes role_general) ec sc))
        ≡ insert_user (row_for id pw ec sc) (q.view db)
  inserted db =
      add_user_refines e q db _ (user_of-IsPlain id pw ec sc plain_id plain_pw plain_ec plain_sc)
        (user_of-IsBounded id pw ec sc)

  inserted_free :
      (db : e.Db)
      → any (has_id id) (q.view db).users ≡ false
      → seen q.view (add_user e db (user_of id pw [] (bytes role_general) ec sc))
        ≡ (true, with_user (row_for id pw ec sc) (q.view db))
  inserted_free db free =
      inserted db ∙ (unfold insert_user in rw (take-eq_self 19 id (omega arith), free) refl)

  inserted_taken :
      (db : e.Db)
      → any (has_id id) (q.view db).users ≡ true
      → seen q.view (add_user e db (user_of id pw [] (bytes role_general) ec sc))
        ≡ (false, q.view db)
  inserted_taken db taken =
      inserted db ∙ (unfold insert_user in rw (take-eq_self 19 id (omega arith), taken) refl)

  pub taken_after : (t : Tables) → any (has_id id) (with_user (row_for id pw ec sc) t).users ≡ true
  taken_after t = ground (
    arith,
    any-append {0} (has_id id) t.users (row_for id pw ec sc ∷ []),
    take-eq_self 19 id (omega arith),
    bytes_eq_refl id,
  )

  abbrev row : UserRow
  row = row_for id pw ec sc

  abbrev Mine : Thread e.Db → Type 0
  Mine = Racer e net id pw ec sc

  asking-free :
      (db : e.Db)
      → any (has_id id) (q.view db).users ≡ false
      → (thread_step (asking e net id pw ec sc) db).1 ≡ inserting e net id pw ec sc
  asking-free db free = rw (is_user_exists-eq-any e q db id, free) refl

  asking-taken :
      (db : e.Db)
      → any (has_id id) (q.view db).users ≡ true
      → (thread_step (asking e net id pw ec sc) db).1 ≡ finish (some duplicate)
  asking-taken db taken = rw (is_user_exists-eq-any e q db id, taken) refl

  inserting-free :
      (db : e.Db)
      → any (has_id id) (q.view db).users ≡ false
      → (thread_step (inserting e net id pw ec sc) db).1 ≡ finish (some welcome)
  inserting-free db free = rw (ap (λ s. s.0) (inserted_free db free)) refl

  inserting-taken :
      (db : e.Db)
      → any (has_id id) (q.view db).users ≡ true
      → (thread_step (inserting e net id pw ec sc) db).1 ≡ finish (some [])
  inserting-taken db taken = rw (ap (λ s. s.0) (inserted_taken db taken)) refl

  -- While the id is free, the next statement reads, or it inserts the row and the thread has won.
  pub racing_step :
      (t : Thread e.Db) (db : e.Db)
      → Mine t
      → any (has_id id) (q.view db).users ≡ false
      → (Mine (thread_step t db).1 × (q.view (thread_step t db).0 ≡ q.view db))
        ⊎ (((thread_step t db).1 ≡ finish (some welcome))
            × (q.view (thread_step t db).0 ≡ with_user row (q.view db)))
  racing_step t db asks free = inl (rw (asking-free db free) inserts, refl)
  racing_step t db inserts free =
      inr (inserting-free db free, ap (λ s. s.1) (inserted_free db free))

  -- While the id is taken, no statement changes the tables.
  pub losing_step :
      (t : Thread e.Db) (db : e.Db)
      → Loser e net id pw ec sc t
      → any (has_id id) (q.view db).users ≡ true
      → Loser e net id pw ec sc (thread_step t db).1 × (q.view (thread_step t db).0 ≡ q.view db)
  losing_step t db (late asks) taken = (rw (asking-taken db taken) (refused found), refl)
  losing_step t db (late inserts) taken =
      (rw (inserting-taken db taken) (refused silent), ap (λ s. s.1) (inserted_taken db taken))
  losing_step t db (refused r) taken = (refused r, refl)

  abbrev after_insert : e.Db → e.Db
  after_insert db = (thread_step (inserting e net id pw ec sc) db).0

  run-inserting_free :
      (db : e.Db)
      → any (has_id id) (q.view db).users ≡ false
      → run (inserting e net id pw ec sc) db ≡ some (after_insert db, welcome)
  unfolding run
  run-inserting_free db free = ap (λ u. run u (after_insert db)) (inserting-free db free)

  run-inserting_taken :
      (db : e.Db)
      → any (has_id id) (q.view db).users ≡ true
      → run (inserting e net id pw ec sc) db ≡ some (after_insert db, [])
  unfolding run
  run-inserting_taken db taken = ap (λ u. run u (after_insert db)) (inserting-taken db taken)

  pub racing_run :
      (t : Thread e.Db) (db : e.Db)
      → Mine t
      → any (has_id id) (q.view db).users ≡ false
      → (db' : e.Db) × (run t db ≡ some (db', welcome)) × (q.view db' ≡ with_user row (q.view db))
  unfolding run
  racing_run t db inserts free =
      (after_insert db, run-inserting_free db free, ap (λ s. s.1) (inserted_free db free))
  racing_run t db asks free = (
    after_insert db,
    ap (λ u. run u db) (asking-free db free) ∙ run-inserting_free db free,
    ap (λ s. s.1) (inserted_free db free),
  )

  pub losing_run :
      (t : Thread e.Db) (db : e.Db)
      → Loser e net id pw ec sc t
      → any (has_id id) (q.view db).users ≡ true
      → (db' : e.Db) × (texts : List Bytes) × (run t db ≡ some (db', texts))
        × (q.view db' ≡ q.view db)
        × Refusal texts
  unfolding run
  losing_run t db (late asks) taken =
      (db, duplicate, ap (λ u. run u db) (asking-taken db taken), refl, found)
  losing_run t db (late inserts) taken = (
    after_insert db,
    [],
    run-inserting_taken db taken,
    ap (λ s. s.1) (inserted_taken db taken),
    silent,
  )
  losing_run t db (refused {texts = texts} r) taken = (db, texts, refl, refl, r)
