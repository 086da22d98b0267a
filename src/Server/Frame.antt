-- ===== src/Server/Frame.antt =====
-- How often a request is answered, and which commands write.
use school_meals.Base.{◌≡◌, refl, ◌⊎◌, inl, Bool, true, false, ◌||◌, some, List, [], length, arith}
use school_meals.CString.{Bytes, bytes, bytes_eq}
use school_meals.Db.{Engine}
use school_meals.Neis.{MealService}
use school_meals.Server.Request.{Params, Reply}
use school_meals.Server.Account.{login, register, update, delete}
use school_meals.Server.Child.{get_children, add_child, delete_child, child_meal, child_multi_meal}
use school_meals.Server.Meal.{get_meal, get_multi_meal}
use school_meals.Server.Dispatch.{dispatch}
use school_meals.Server.Ensures.{Ensures, Ensures-some, Ensures-mono, Ensures-dispatch}

abbrev pub is_writer : Bytes → Bool
is_writer cmd =
    bytes_eq cmd (bytes "REGISTER_GENERAL")
    || bytes_eq cmd (bytes "UPDATE")
    || bytes_eq cmd (bytes "DELETE")
    || bytes_eq cmd (bytes "ADD_CHILD")
    || bytes_eq cmd (bytes "DEL_CHILD")

module _ (e : Engine) (net : MealService) (db : e.Db) (p : Params) where
  abbrev Answered : e.Db → List Bytes → Type 0
  Answered db' sent =
      (length sent ≡ 1) ⊎ ((bytes_eq p.cmd (bytes "REGISTER_GENERAL") ≡ true) × (sent ≡ []))

  login-Answered : Ensures Answered (login e db p)
  unfolding login
  login-Answered = record { at = λ db' sent h. ground arith }

  register-Answered :
      bytes_eq p.cmd (bytes "REGISTER_GENERAL") ≡ true → Ensures Answered (register e net db p)
  unfolding register
  register-Answered c = record { at = λ db' sent h. ground arith }

  update-Answered : Ensures Answered (update e net db p)
  unfolding update
  update-Answered = record { at = λ db' sent h. ground arith }

  delete-Answered : Ensures Answered (delete e db p)
  unfolding delete
  delete-Answered = record { at = λ db' sent h. ground arith }

  get_children-Answered : Ensures Answered (get_children e db p)
  unfolding get_children
  get_children-Answered = record { at = λ db' sent h. ground arith }

  add_child-Answered : Ensures Answered (add_child e db p)
  unfolding add_child
  add_child-Answered = record { at = λ db' sent h. ground arith }

  delete_child-Answered : Ensures Answered (delete_child e db p)
  unfolding delete_child
  delete_child-Answered = record { at = λ db' sent h. ground arith }

  child_meal-Answered : Ensures Answered (child_meal e db p)
  unfolding child_meal
  child_meal-Answered = record { at = λ db' sent h. ground arith }

  child_multi_meal-Answered : Ensures Answered (child_multi_meal e db p)
  unfolding child_multi_meal
  child_multi_meal-Answered = record { at = λ db' sent h. ground arith }

  get_meal-Answered : Ensures Answered (get_meal net db p)
  unfolding get_meal
  get_meal-Answered = record { at = λ db' sent h. ground arith }

  get_multi_meal-Answered : Ensures Answered (get_multi_meal net db p)
  unfolding get_multi_meal
  get_multi_meal-Answered = record { at = λ db' sent h. ground arith }

  -- A request is answered by exactly one text, but for a registration, which can end in silence.
  pub dispatch_answers :
      (db' : e.Db) (sent : List Bytes)
      → dispatch e net db p ≡ some (db', sent)
      → (length sent ≡ 1) ⊎ ((bytes_eq p.cmd (bytes "REGISTER_GENERAL") ≡ true) × (sent ≡ []))
  dispatch_answers =
      (Ensures-dispatch e net {P = Answered} db p (λ _. login-Answered) register-Answered
        (λ _. update-Answered) (λ _. delete-Answered) (λ _. get_children-Answered)
        (λ _. add_child-Answered) (λ _. delete_child-Answered) (λ _. child_meal-Answered)
        (λ _. child_multi_meal-Answered) (λ _. get_meal-Answered) (λ _. get_multi_meal-Answered)
        (Ensures-some _ _ (inl refl))).at

  abbrev pub Unchanged : e.Db → List Bytes → Type 0
  Unchanged db' sent = db' ≡ db

  abbrev Reads : e.Db → List Bytes → Type 0
  Reads db' sent = is_writer p.cmd ≡ false → db' ≡ db

  pub login-Unchanged : Ensures Unchanged (login e db p)
  unfolding login
  login-Unchanged = record { at = λ db' sent h. ground arith }

  pub get_children-Unchanged : Ensures Unchanged (get_children e db p)
  unfolding get_children
  get_children-Unchanged = record { at = λ db' sent h. ground arith }

  pub child_meal-Unchanged : Ensures Unchanged (child_meal e db p)
  unfolding child_meal
  child_meal-Unchanged = record { at = λ db' sent h. ground arith }

  pub child_multi_meal-Unchanged : Ensures Unchanged (child_multi_meal e db p)
  unfolding child_multi_meal
  child_multi_meal-Unchanged = record { at = λ db' sent h. ground arith }

  pub get_meal-Unchanged : Ensures Unchanged (get_meal net db p)
  unfolding get_meal
  get_meal-Unchanged = record { at = λ db' sent h. ground arith }

  pub get_multi_meal-Unchanged : Ensures Unchanged (get_multi_meal net db p)
  unfolding get_multi_meal
  get_multi_meal-Unchanged = record { at = λ db' sent h. ground arith }

  reads : (r : Reply e.Db) → Ensures Unchanged r → Ensures Reads r
  reads r = Ensures-mono r (λ db' sent e _. e)

  writes : (r : Reply e.Db) → is_writer p.cmd ≡ true → Ensures Reads r
  writes r w = record { at = λ db' sent h reader. cc }

  -- A command other than the five that write leaves the database as it is, whatever its parameters.
  pub dispatch_reads :
      (db' : e.Db) (sent : List Bytes)
      → dispatch e net db p ≡ some (db', sent)
      → is_writer p.cmd ≡ false
      → db' ≡ db
  dispatch_reads =
      (Ensures-dispatch e net {P = Reads} db p (λ _. reads _ login-Unchanged)
        (λ c. writes _ (ground arith)) (λ c. writes _ (ground arith)) (λ c. writes _ (ground arith))
        (λ _. reads _ get_children-Unchanged) (λ c. writes _ (ground arith))
        (λ c. writes _ (ground arith)) (λ _. reads _ child_meal-Unchanged)
        (λ _. reads _ child_multi_meal-Unchanged) (λ _. reads _ get_meal-Unchanged)
        (λ _. reads _ get_multi_meal-Unchanged) (Ensures-some _ _ (λ _. refl))).at
