-- ===== src/Server/Threads/Race/Outcome.antt =====
-- Two clients that register the same new id at the same time.
use school_meals.Base.{
  ◌≡◌, refl, ap, subst, ◌∙◌, Bool, true, false, Option, some, List, [], ◌∷◌, any, inl, inr, ◌<◌,
  length,
}
use school_meals.CString.{Bytes, bytes_eq}
use school_meals.CString.Tokens.{Lacks}
use school_meals.Db.{Engine}
use school_meals.Db.Tables.{Tables, UserRow, has_id}
use school_meals.Db.Laws.{Sqlite}
use school_meals.Neis.{MealService, codes, HasPlainCodes}
use school_meals.Server.Invariant.{quote}
use school_meals.Server.Threads.{Thread, finish, run, thread_of}
use school_meals.Server.Threads.Race.{interleave, registration}
use school_meals.Server.Threads.Race.Contender.{
  row_for, with_user, welcome, Refusal, Racer, asks, Loser, late, taken_after, racing_step,
  losing_step, racing_run, losing_run,
}

module _ (e : Engine) (q : Sqlite e) where
  -- One of the two rows is behind the others, and only its thread has sent the welcome.
  pub data Won (first second : UserRow) (t : Tables)
      : Option (e.Db × List Bytes × List Bytes) → Type 0 where
    by_first :
        (db : e.Db) (texts : List Bytes)
        → q.view db ≡ with_user first t
        → Refusal texts
        → Won first second t (some (db, welcome, texts))
    by_second :
        (db : e.Db) (texts : List Bytes)
        → q.view db ≡ with_user second t
        → Refusal texts
        → Won first second t (some (db, texts, welcome))

module _ (e : Engine) (q : Sqlite e) (net : MealService) (id : Bytes) (short : length id < 20)
    (plain_id : Lacks quote id) (pw ec sc : Bytes) (plain_pw : Lacks quote pw)
    (plain_ec : Lacks quote ec) (plain_sc : Lacks quote sc) where
  -- The other thread has won.
  behind_first :
      (turns : List Bool) (t : Thread e.Db) (db : e.Db)
      → Loser e net id pw ec sc t
      → any (has_id id) (q.view db).users ≡ true
      → (db' : e.Db) × (texts : List Bytes) × (interleave turns (finish (some welcome)) t db
          ≡ some (db', welcome, texts))
        × (q.view db' ≡ q.view db)
        × Refusal texts
  unfolding interleave run
  behind_first [] t db loser taken =
      let (db', texts, ran, same, r) =
        losing_run e q net id pw ec sc short plain_id plain_pw plain_ec plain_sc t db loser taken in
      (db', texts, rw ran refl, same, r)
  behind_first (true ∷ turns) t db loser taken = behind_first turns t db loser taken
  behind_first (false ∷ turns) t db loser taken =
      let (loser', same) =
        losing_step e q net id pw ec sc short plain_id plain_pw plain_ec plain_sc t db loser
          taken in
      let (db', texts, ran, same', r) =
        behind_first turns _ _ loser' (ap (λ v. any (has_id id) v.users) same ∙ taken) in
      (db', texts, ran, same' ∙ same, r)

  behind_second :
      (turns : List Bool) (t : Thread e.Db) (db : e.Db)
      → Loser e net id pw ec sc t
      → any (has_id id) (q.view db).users ≡ true
      → (db' : e.Db) × (texts : List Bytes) × (interleave turns t (finish (some welcome)) db
          ≡ some (db', texts, welcome))
        × (q.view db' ≡ q.view db)
        × Refusal texts
  unfolding interleave run
  behind_second [] t db loser taken =
      let (db', texts, ran, same, r) =
        losing_run e q net id pw ec sc short plain_id plain_pw plain_ec plain_sc t db loser taken in
      (db', texts, rw ran refl, same, r)
  behind_second (false ∷ turns) t db loser taken = behind_second turns t db loser taken
  behind_second (true ∷ turns) t db loser taken =
      let (loser', same) =
        losing_step e q net id pw ec sc short plain_id plain_pw plain_ec plain_sc t db loser
          taken in
      let (db', texts, ran, same', r) =
        behind_second turns _ _ loser' (ap (λ v. any (has_id id) v.users) same ∙ taken) in
      (db', texts, ran, same' ∙ same, r)

abbrev pub registering : (e : Engine) → MealService → Bytes → Bytes → Bytes → Bytes → Thread e.Db
registering e net id pw office school = thread_of e net (registration id pw office school)

module _ (e : Engine) (q : Sqlite e) (net : MealService) (id : Bytes) (short : length id < 20)
    (plain_id : Lacks quote id) (pw ec sc : Bytes) (plain_pw : Lacks quote pw)
    (plain_ec : Lacks quote ec) (plain_sc : Lacks quote sc) (pw' ec' sc' : Bytes)
    (plain_pw' : Lacks quote pw') (plain_ec' : Lacks quote ec') (plain_sc' : Lacks quote sc') where
  abbrev mine : UserRow
  mine = row_for id pw ec sc

  abbrev other : UserRow
  other = row_for id pw' ec' sc'

  first_ahead :
      (turns : List Bool) (second : Thread e.Db) (db : e.Db) (t : Tables)
      → q.view db ≡ with_user mine t
      → Racer e net id pw' ec' sc' second
      → Won e q mine other t (interleave turns (finish (some welcome)) second db)
  first_ahead turns second db t is r =
      let (db', texts, ran, same, refusal) =
        behind_first e q net id short plain_id pw' ec' sc' plain_pw' plain_ec' plain_sc' turns
          second db (late r)
          (ap (λ v. any (has_id id) v.users) is
            ∙ taken_after e q net id pw ec sc short plain_id plain_pw plain_ec plain_sc t) in
      rw ran (by_first db' texts (same ∙ is) refusal)

  second_ahead :
      (turns : List Bool) (first : Thread e.Db) (db : e.Db) (t : Tables)
      → q.view db ≡ with_user other t
      → Racer e net id pw ec sc first
      → Won e q mine other t (interleave turns first (finish (some welcome)) db)
  second_ahead turns first db t is r =
      let (db', texts, ran, same, refusal) =
        behind_second e q net id short plain_id pw ec sc plain_pw plain_ec plain_sc turns first db
          (late r)
          (ap (λ v. any (has_id id) v.users) is
            ∙ taken_after e q net id pw' ec' sc' short plain_id plain_pw' plain_ec' plain_sc' t) in
      rw ran (by_second db' texts (same ∙ is) refusal)

  race_lem :
      (turns : List Bool) (first second : Thread e.Db) (db : e.Db) (t : Tables)
      → q.view db ≡ t
      → any (has_id id) t.users ≡ false
      → Racer e net id pw ec sc first
      → Racer e net id pw' ec' sc' second
      → Won e q mine other t (interleave turns first second db)
  unfolding interleave
  race_lem [] first second db t is free r r' =
      let (db', ran, stored) =
        racing_run e q net id pw ec sc short plain_id plain_pw plain_ec plain_sc first db r
          (ap (λ v. any (has_id id) v.users) is ∙ free) in
      subst (Won e q mine other t) {x = interleave [] (finish (some welcome)) second db'}
        {y = interleave [] first second db} (unfold run in rw ran refl)
        (first_ahead [] second db' t (stored ∙ ap (with_user mine) is) r')
  race_lem (true ∷ turns) first second db t is free r r' =
      elim (racing_step e q net id pw ec sc short plain_id plain_pw plain_ec plain_sc first db r
        (ap (λ v. any (has_id id) v.users) is ∙ free)) [
          | inl (next, same) ↦ race_lem turns _ second _ t (same ∙ is) free next r'
          | inr (done, stored) ↦
              rw done (first_ahead turns second _ t (stored ∙ ap (with_user mine) is) r')
        ]
  race_lem (false ∷ turns) first second db t is free r r' =
      elim (racing_step e q net id pw' ec' sc' short plain_id plain_pw' plain_ec' plain_sc' second
        db r' (ap (λ v. any (has_id id) v.users) is ∙ free)) [
          | inl (next, same) ↦ race_lem turns first _ _ t (same ∙ is) free r next
          | inr (done, stored) ↦
              rw done (second_ahead turns first _ t (stored ∙ ap (with_user other) is) r)
        ]

module _ (e : Engine) (q : Sqlite e) (net : MealService) (hn : HasPlainCodes net) where
  -- Two clients register the same new id, of at most 19 bytes with no quote, with passwords that hold
  -- no quote and schools that have codes, and their statements come in any order: exactly one of the
  -- two rows is added to the tables, and the thread of that row is the one that answers with success.
  -- The other answers that the id is taken, or nothing at all.
  pub registrations_race :
      (turns : List Bool) (id pw office school ec sc pw' office' school' ec' sc' : Bytes)
      (db : e.Db)
      → length id < 20
      → Lacks quote id
      → Lacks quote pw
      → Lacks quote pw'
      → net.resolve_school_code school ≡ codes ec sc
      → net.resolve_school_code school' ≡ codes ec' sc'
      → any (has_id id) (q.view db).users ≡ false
      → Won e q (row_for id pw ec sc) (row_for id pw' ec' sc') (q.view db) (
          interleave turns
            (registering e net id pw office school)
            (registering e net id pw' office' school')
            db)
  unfolding thread_of bytes_eq
  registrations_race turns id pw o school ec sc pw' o' school' ec' sc' db short hi hp hp' known
        known' free =
      let plain = hn.plain school ec sc known in
      let plain' = hn.plain school' ec' sc' known' in
      rw (known, known')
        (race_lem e q net id short hi pw ec sc hp plain.0 plain.1 pw' ec' sc' hp' plain'.0 plain'.1
          turns _ _ db (q.view db) refl free asks asks)
