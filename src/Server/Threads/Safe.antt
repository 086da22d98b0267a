-- ===== src/Server/Threads/Safe.antt =====
-- What each statement of a thread may do to the tables.
use school_meals.Base.{
  String, ◌≡◌, refl, ap, subst, Bool, true, false, Option, none, some, length, ◌<◌, take-eq_self,
  if◌then◌else◌, arith,
}
use school_meals.CString.{Bytes, bytes, bytes_eq}
use school_meals.CString.Tokens.{Lacks}
use school_meals.Db.{
  Engine, UserBuffer, get_user, is_user_exists, is_child_registered, verify_user, sql_add_child,
}
use school_meals.Db.Tables.{Tables}
use school_meals.Db.Laws.{Sqlite, seen}
use school_meals.Db.Refines.{
  add_user_refines, update_user_refines, delete_user_refines, db_delete_child_refines,
}
use school_meals.Db.WellFormed.{WellFormed}
use school_meals.Db.WellFormed.Kept.{
  insert_user-WellFormed, update_users-WellFormed, delete_users-WellFormed, insert_child-WellFormed,
  delete_children-WellFormed,
}
use school_meals.Neis.{MealService, HasPlainCodes, Lookup, missing, codes, unterminated}
use school_meals.Server.Request.{Params, Reply}
use school_meals.Server.Account.{login_text, old_texts}
use school_meals.Server.Child.{get_children, child_multi_meal}
use school_meals.Server.Meal.{get_meal, get_multi_meal}
use school_meals.Server.Invariant.{
  quote, PlainText, user_of-IsPlain, user_of-IsBounded, row_of-IsRow,
}
use school_meals.Server.Threads.{
  Thread, finish, reads, writes, need_param, told, one_read, login_told, login_done, login_thread,
  delete_thread, insert_child_row, add_child_thread, delete_child_thread, child_meal_done,
  child_meal_query, child_meal_for, child_meal_thread, add_done, register_with_thread,
  register_thread, update_row, update_old, update_with_thread, update_thread, thread_of,
}

-- Only the texts of a registration go into an SQL text.
abbrev pub IsPlainRequest : Params → Type 0
IsPlainRequest p =
    bytes_eq p.cmd (bytes "REGISTER_GENERAL") ≡ true → PlainText p.id × PlainText p.pw

module _ (e : Engine) (q : Sqlite e) where
  abbrev Keeps : (e.Db → Bool × e.Db) → Type 0
  Keeps w = (db : e.Db) → WellFormed (q.view db) → WellFormed (q.view (w db).1)

  -- Whatever it reads, each statement that the thread comes to keeps the tables well formed.
  abbrev pub Safe : Thread e.Db → Type 0
  Safe (finish texts) = Unit
  Safe (reads f) = (db : e.Db) → Safe (f db)
  Safe (writes w f) = Keeps w × ((ok : Bool) → Safe (f ok))

  Safe-if : (b : Bool) (t t' : Thread e.Db) → Safe t → Safe t' → Safe (if b then t else t')
  Safe-if true t t' h h' = h
  Safe-if false t t' h h' = h'

  Safe-need :
      (o : Option Bytes) (body : Bytes → Thread e.Db)
      → ((a : Bytes) → o ≡ some a → Safe (body a))
      → Safe (need_param o body)
  Safe-need none body h = tt
  Safe-need (some a) body h = h a refl

  one_read-Safe : (handler : e.Db → Reply e.Db) → Safe (one_read handler)
  one_read-Safe handler db = tt

  told-Safe : (done : String) (ok : Bool) → Safe (told done ok)
  told-Safe done true = tt
  told-Safe done false = tt

  wrote :
      (r : Bool × e.Db) (t : Bool × Tables)
      → seen q.view r ≡ t
      → WellFormed t.1
      → WellFormed (q.view r.1)
  wrote r t same ht = rw (ap (λ s. s.1) same) ht

  login_told-Safe : (o : Option Bytes) → Safe (login_told e o)
  login_told-Safe none = tt
  login_told-Safe (some text) = tt

  login_done-Safe : (o : Option (Option UserBuffer)) → Safe (login_done e o)
  login_done-Safe none = tt
  login_done-Safe (some none) = tt
  login_done-Safe (some (some user)) = login_told-Safe (login_text user)

  login-Safe : (p : Params) → Safe (login_thread e p)
  login-Safe p = Safe-need p.id _ λ id _.
      Safe-need p.pw _
        λ pw _. λ db. Safe-if (verify_user e db id pw) _ _ (λ db'. login_done-Safe _) tt

  delete-Safe : (p : Params) → Safe (delete_thread e p)
  delete-Safe p = Safe-need p.id _ λ id _. (
    (λ db h. wrote _ _ (delete_user_refines e q db id) (delete_users-WellFormed id _ h)),
    told-Safe "사용자 삭제 성공",
  )

  insert_child_row-Keeps :
      (child_id parent_id : Bytes) → Keeps (insert_child_row e child_id parent_id)
  unfolding insert_child_row
  insert_child_row-Keeps child_id parent_id db h =
      rw (insert_child_row, q.prepares db sql_add_child refl)
        (wrote _ _ (q.step_add_child db child_id parent_id)
          (insert_child-WellFormed child_id parent_id _ h))

  add_child-Safe : (p : Params) → Safe (add_child_thread e p)
  add_child-Safe p = Safe-need p.id _ λ id _. Safe-need p.child_id _ λ child _. λ db.
      Safe-if (is_user_exists e db child) _ _
        (λ db'.
          Safe-if (is_user_exists e db' child) _ _
            (insert_child_row-Keeps child id, told-Safe "자녀 추가 성공") tt)
        tt

  delete_child-Safe : (p : Params) → Safe (delete_child_thread e p)
  delete_child-Safe p = Safe-need p.id _ λ id _. Safe-need p.child_id _ λ child _. λ db.
      Safe-if (is_child_registered e db child id) _ _
        (
          (λ db' h.
              wrote _ _ (db_delete_child_refines e q db' child id)
                (delete_children-WellFormed child id _ h)),
          told-Safe "자녀 삭제 성공",
        )
        tt

  child_meal_done-Safe : (o : Option (Option Bytes)) → Safe (child_meal_done e o)
  child_meal_done-Safe none = tt
  child_meal_done-Safe (some none) = tt
  child_meal_done-Safe (some (some meal)) = tt

  child_meal_query-Safe :
      (date : Bytes) (edu_office school_name : Option Bytes)
      → Safe (child_meal_query e date edu_office school_name)
  child_meal_query-Safe date (some o) (some s) = λ db. child_meal_done-Safe _
  child_meal_query-Safe date (some o) none = tt
  child_meal_query-Safe date none school_name = tt

  child_meal_for-Safe :
      (date : Bytes) (o : Option (Option UserBuffer)) → Safe (child_meal_for e date o)
  child_meal_for-Safe date none = tt
  child_meal_for-Safe date (some none) = tt
  child_meal_for-Safe date (some (some child)) =
      child_meal_query-Safe date child.edu_office child.school_name

  child_meal-Safe : (p : Params) → Safe (child_meal_thread e p)
  child_meal-Safe p = Safe-need p.id _ λ id _. Safe-need p.child_id _ λ child _.
      Safe-need p.date _ λ date _.
        λ db. Safe-if (is_child_registered e db child id) _ _ (λ db'. child_meal_for-Safe date _) tt

  module _ (net : MealService) (hn : HasPlainCodes net) where
    add_done-Safe : (ok : Bool) → Safe (add_done e net ok)
    add_done-Safe true = tt
    add_done-Safe false = tt

    register_with-Safe :
        (id pw school : Bytes)
        → Lacks quote id
        → Lacks quote pw
        → (look : Lookup) → net.resolve_school_code school ≡ look
        → Safe (register_with_thread e net id pw look)
    register_with-Safe id pw school hi hp missing found = tt
    register_with-Safe id pw school hi hp (codes ec sc) found =
        let (short, short') = hn.short school ec sc found in
        let (plain, plain') = hn.plain school ec sc found in
        (
          (λ db h.
              wrote _ _
                (add_user_refines e q db _ (user_of-IsPlain id pw ec sc hi hp plain plain')
                  (user_of-IsBounded id pw ec sc))
                (insert_user-WellFormed _ _ (row_of-IsRow id pw ec sc short short') h)),
          add_done-Safe,
        )
    register_with-Safe id pw school hi hp unterminated found = tt

    register-Safe : (p : Params) → PlainText p.id × PlainText p.pw → Safe (register_thread e net p)
    register-Safe p (hi, hp) = Safe-need p.id _ λ id is_id. Safe-need p.pw _ λ pw is_pw.
        Safe-need p.edu_office _ λ office _. Safe-need p.school_name _ λ school _. λ db.
          Safe-if (is_user_exists e db id) _ _ tt (
            register_with-Safe id pw school (subst PlainText is_id hi) (subst PlainText is_pw hp) _
              refl)

    update_row-Safe :
        (id pw ec sc : Bytes)
        → length ec < 10
        → length sc < 20
        → (o : Option (Bytes × Bytes)) → Safe (update_row e net id pw ec sc o)
    update_row-Safe id pw ec sc he hs none = tt
    update_row-Safe id pw ec sc he hs (some (name, role)) = (
      (λ db h. wrote _ _ (update_user_refines e q db _) (
          update_users-WellFormed _ _ _ _ _ (rw (take-eq_self 49 ec (omega arith)) (omega arith))
            (rw (take-eq_self 49 sc (omega arith)) (omega arith)) h)),
      told-Safe "사용자 정보 수정 성공",
    )

    update_old-Safe :
        (id pw ec sc : Bytes)
        → length ec < 10
        → length sc < 20
        → (o : Option (Option UserBuffer)) → Safe (update_old e net id pw ec sc o)
    update_old-Safe id pw ec sc he hs none = tt
    update_old-Safe id pw ec sc he hs (some old) = update_row-Safe id pw ec sc he hs (old_texts old)

    update_with-Safe :
        (id pw school : Bytes) (look : Lookup)
        → net.resolve_school_code school ≡ look
        → Safe (update_with_thread e net id pw look)
    update_with-Safe id pw school missing found = tt
    update_with-Safe id pw school (codes ec sc) found =
        let (he, hs) = hn.short school ec sc found in
        λ db. update_old-Safe id pw ec sc he hs (get_user e true db id)
    update_with-Safe id pw school unterminated found = tt

    update-Safe : (p : Params) → Safe (update_thread e net p)
    update-Safe p = Safe-need p.id _ λ id _. Safe-need p.pw _ λ pw _.
        Safe-need p.edu_office _
          λ office _. Safe-need p.school_name _ λ school _. update_with-Safe id pw school _ refl

    -- The same as a record, by which the chain of commands is taken apart
    record IsSafe (t : Thread e.Db) : Type 0 where
      pub safe : Safe t

    IsSafe-if :
        (b : Bool) (t t' : Thread e.Db)
        → (b ≡ true → Safe t)
        → IsSafe t'
        → IsSafe (if b then t else t')
    IsSafe-if true t t' h h' = record { safe = h refl }
    IsSafe-if false t t' h h' = h'

    thread_of-IsSafe : (p : Params) → IsPlainRequest p → IsSafe (thread_of e net p)
    unfolding thread_of
    thread_of-IsSafe p plain =
        let is : String → Bool = λ cmd. bytes_eq p.cmd (bytes cmd) in
        IsSafe-if (is "LOGIN") (login_thread e p) _ (λ _. login-Safe p)
          (IsSafe-if (is "REGISTER_GENERAL") (register_thread e net p) _
            (λ c. register-Safe p (plain c))
            (IsSafe-if (is "UPDATE") (update_thread e net p) _ (λ _. update-Safe p)
              (IsSafe-if (is "DELETE") (delete_thread e p) _ (λ _. delete-Safe p)
                (IsSafe-if (is "GET_CHILDREN") (one_read (λ db. get_children e db p)) _
                  (λ _. one_read-Safe (λ db. get_children e db p))
                  (IsSafe-if (is "ADD_CHILD") (add_child_thread e p) _ (λ _. add_child-Safe p)
                    (IsSafe-if (is "DEL_CHILD") (delete_child_thread e p) _
                      (λ _. delete_child-Safe p)
                      (IsSafe-if (is "CHILD_MEAL") (child_meal_thread e p) _
                        (λ _. child_meal-Safe p)
                        (IsSafe-if (is "CHILD_MULTI_MEAL")
                          (one_read (λ db. child_multi_meal e db p)) _
                          (λ _. one_read-Safe (λ db. child_multi_meal e db p))
                          (IsSafe-if (is "GET_MEAL") (one_read (λ db. get_meal net db p)) _
                            (λ _. one_read-Safe (λ db. get_meal net db p))
                            (IsSafe-if (is "GET_MULTI_MEAL")
                              (one_read (λ db. get_multi_meal net db p)) _
                              (λ _. one_read-Safe (λ db. get_multi_meal net db p))
                              (record { safe = tt })))))))))))

    -- Every request of which a registration brings no quote
    pub thread_of-Safe : (p : Params) → IsPlainRequest p → Safe (thread_of e net p)
    thread_of-Safe p plain = (thread_of-IsSafe p plain).safe
