-- ===== src/Server/Invariant.antt =====
-- Every request keeps the tables well formed.
use school_meals.Base.{
  ◌≡◌, refl, ap, subst, ◌<◌, Bool, true, false, Option, none, some, List, [], ◌∷◌, length,
  length-take-le, take-eq_self, All-take, arith,
}
use school_meals.CString.{Bytes, bytes, bytes_eq}
use school_meals.CString.Tokens.{Lacks}
use school_meals.Protocol.{role_general}
use school_meals.Db.{Engine, get_user, add_user, update_user, is_user_exists, is_child_registered}
use school_meals.Db.Tables.{Tables}
use school_meals.Db.Laws.{Sqlite, IsPlain, row_of, seen}
use school_meals.Db.Refines.{
  IsBounded, add_user_refines, update_user_refines, delete_user_refines, db_add_child_refines,
  db_delete_child_refines,
}
use school_meals.Db.WellFormed.{WellFormed, IsRow}
use school_meals.Db.WellFormed.Kept.{
  insert_user-WellFormed, update_users-WellFormed, delete_users-WellFormed, insert_child-WellFormed,
  delete_children-WellFormed,
}
use school_meals.Neis.{MealService, HasPlainCodes, Lookup, missing, codes, unterminated}
use school_meals.Server.Request.{Params, Reply}
use school_meals.Server.Account.{
  register, update, delete, user_of, register_with, update_with, old_texts, added,
}
use school_meals.Server.Child.{add_child, delete_child}
use school_meals.Server.Dispatch.{dispatch}
use school_meals.Server.Ensures.{
  Ensures, Ensures-some, Ensures-none, Ensures-if, Ensures-need, Ensures-bind, Ensures-report,
  Ensures-mono, Ensures-dispatch,
}
use school_meals.Server.Frame.{
  Unchanged, login-Unchanged, get_children-Unchanged, child_meal-Unchanged,
  child_multi_meal-Unchanged, get_meal-Unchanged, get_multi_meal-Unchanged,
}

abbrev pub quote : Bytes
quote = b'\'' ∷ []

-- A parameter that is there holds no quote.
abbrev pub PlainText : Option Bytes → Type 0
PlainText none = Unit
PlainText (some s) = Lacks quote s

general_plain : Lacks quote (bytes role_general)
general_plain = (refl, (refl, (refl, (refl, (refl, (refl, (refl, tt)))))))

-- The record of a registration or an update fits its fields.
pub user_of-IsPlain :
    (id pw ec sc : Bytes)
    → Lacks quote id
    → Lacks quote pw
    → Lacks quote ec
    → Lacks quote sc
    → IsPlain (user_of id pw [] (bytes role_general) ec sc)
user_of-IsPlain id pw ec sc hi hp he hs = record {
  id = All-take _ 19 id hi;
  pw = All-take _ 19 pw hp;
  role = general_plain;
  edu_office = All-take _ 49 ec he;
  school_name = All-take _ 49 sc hs;
}

pub user_of-IsBounded :
    (id pw ec sc : Bytes) → IsBounded (user_of id pw [] (bytes role_general) ec sc)
user_of-IsBounded id pw ec sc = omega (
  arith,
  length-take-le {0} 19 id,
  length-take-le {0} 19 pw,
  length-take-le {0} 49 ec,
  length-take-le {0} 49 sc,
)

pub row_of-IsRow :
    (id pw ec sc : Bytes)
    → length ec < 10
    → length sc < 20
    → IsRow (row_of (user_of id pw [] (bytes role_general) ec sc))
row_of-IsRow id pw ec sc he hs = record {
  role = omega arith;
  edu_office = rw (take-eq_self 49 ec (omega arith)) (omega arith);
  school_name = rw (take-eq_self 49 sc (omega arith)) (omega arith);
}

module _ (e : Engine) (q : Sqlite e) (net : MealService) (hn : HasPlainCodes net) (db : e.Db)
    (h : WellFormed (q.view db)) (p : Params) where
  abbrev Keeps : e.Db → List Bytes → Type 0
  Keeps db' sent = WellFormed (q.view db')

  unchanged : (r : Reply e.Db) → Ensures (Unchanged e net db p) r → Ensures Keeps r
  unchanged r = Ensures-mono r (λ db' sent same. rw same h)

  -- A write whose effect on the tables is known.
  wrote :
      (r : Bool × e.Db) (t : Bool × Tables)
      → seen q.view r ≡ t
      → WellFormed t.1
      → WellFormed (q.view r.1)
  wrote r t same ht = rw (ap (λ s. s.1) same) ht

  Ensures-added : (r : Bool × e.Db) → WellFormed (q.view r.1) → Ensures Keeps (added r)
  Ensures-added (true, db') k = Ensures-some db' _ k
  Ensures-added (false, db') k = Ensures-some db' _ k

  register_with-Keeps :
      (id pw school : Bytes)
      → Lacks quote id
      → Lacks quote pw
      → (look : Lookup) → net.resolve_school_code school ≡ look
      → Ensures Keeps (register_with e net db id pw look)
  unfolding register_with
  register_with-Keeps id pw school hi hp missing found = Ensures-some db _ h
  register_with-Keeps id pw school hi hp (codes ec sc) found =
      Ensures-added (add_user e db (user_of id pw [] (bytes role_general) ec sc)) (
        wrote _ _
          (add_user_refines e q db _
            (user_of-IsPlain id pw ec sc hi hp (hn.plain school ec sc found).0
              (hn.plain school ec sc found).1)
            (user_of-IsBounded id pw ec sc))
          (insert_user-WellFormed _ _
            (row_of-IsRow id pw ec sc (hn.short school ec sc found).0
              (hn.short school ec sc found).1)
            h))
  register_with-Keeps id pw school hi hp unterminated found = Ensures-none

  update_with-Keeps :
      (id pw school : Bytes) (look : Lookup)
      → net.resolve_school_code school ≡ look
      → Ensures Keeps (update_with e net db id pw look)
  unfolding update_with
  update_with-Keeps id pw school missing found = Ensures-some db _ h
  update_with-Keeps id pw school (codes ec sc) found =
      Ensures-bind (get_user e true db id) _ λ old _. Ensures-bind (old_texts old) _ λ texts _.
        Ensures-report "사용자 정보 수정 성공" (update_user e db (user_of id pw texts.0 texts.1 ec sc))
          λ sent. wrote _ _ (update_user_refines e q db _) (
            update_users-WellFormed _ _ _ _ _
              (rw (take-eq_self 49 ec (omega (arith, hn.short school ec sc found)))
                (omega (arith, hn.short school ec sc found)))
              (rw (take-eq_self 49 sc (omega (arith, hn.short school ec sc found)))
                (omega (arith, hn.short school ec sc found)))
              h)
  update_with-Keeps id pw school unterminated found = Ensures-none

  delete-Keeps : Ensures Keeps (delete e db p)
  unfolding delete
  delete-Keeps = Ensures-need db p.id _ (Ensures-some db _ h) λ id _.
      Ensures-report "사용자 삭제 성공" _
        λ sent. wrote _ _ (delete_user_refines e q db id) (delete_users-WellFormed id _ h)

  register-Keeps : PlainText p.id → PlainText p.pw → Ensures Keeps (register e net db p)
  unfolding register
  register-Keeps hi hp = Ensures-need db p.id _ (Ensures-some db _ h) λ id is_id.
      Ensures-need db p.pw _ (Ensures-some db _ h) λ pw is_pw.
        Ensures-need db p.edu_office _ (Ensures-some db _ h) λ office _.
          Ensures-need db p.school_name _ (Ensures-some db _ h) λ school _.
            Ensures-if (is_user_exists e db id) _ _ (λ _. Ensures-some db _ h)
              λ _.
                register_with-Keeps id pw school (subst PlainText is_id hi)
                  (subst PlainText is_pw hp) _ refl

  update-Keeps : Ensures Keeps (update e net db p)
  unfolding update
  update-Keeps = Ensures-need db p.id _ (Ensures-some db _ h) λ id _.
      Ensures-need db p.pw _ (Ensures-some db _ h) λ pw _.
        Ensures-need db p.edu_office _ (Ensures-some db _ h) λ office _.
          Ensures-need db p.school_name _ (Ensures-some db _ h)
            λ school _. update_with-Keeps id pw school _ refl

  add_child-Keeps : Ensures Keeps (add_child e db p)
  unfolding add_child
  add_child-Keeps = Ensures-need db p.id _ (Ensures-some db _ h) λ id _.
      Ensures-need db p.child_id _ (Ensures-some db _ h) λ child _.
        Ensures-if (is_user_exists e db child) _ _
          (λ _. Ensures-report "자녀 추가 성공" _ λ sent.
            wrote _ _ (db_add_child_refines e q db child id) (insert_child-WellFormed child id _ h))
          λ _. Ensures-some db _ h

  delete_child-Keeps : Ensures Keeps (delete_child e db p)
  unfolding delete_child
  delete_child-Keeps = Ensures-need db p.id _ (Ensures-some db _ h) λ id _.
      Ensures-need db p.child_id _ (Ensures-some db _ h) λ child _.
        Ensures-if (is_child_registered e db child id) _ _
          (λ _. Ensures-report "자녀 삭제 성공" _ λ sent.
            wrote _ _ (db_delete_child_refines e q db child id)
              (delete_children-WellFormed child id _ h))
          λ _. Ensures-some db _ h

  -- Only the texts of a registration go into an SQL text.
  pub dispatch-WellFormed_if :
      (bytes_eq p.cmd (bytes "REGISTER_GENERAL") ≡ true → PlainText p.id × PlainText p.pw)
      → (db' : e.Db) (sent : List Bytes) → dispatch e net db p ≡ some (db', sent)
      → WellFormed (q.view db')
  dispatch-WellFormed_if plain =
      (Ensures-dispatch e net {P = Keeps} db p (λ _. unchanged _ (login-Unchanged e net db p))
        (λ c. register-Keeps (plain c).0 (plain c).1) (λ _. update-Keeps) (λ _. delete-Keeps)
        (λ _. unchanged _ (get_children-Unchanged e net db p)) (λ _. add_child-Keeps)
        (λ _. delete_child-Keeps) (λ _. unchanged _ (child_meal-Unchanged e net db p))
        (λ _. unchanged _ (child_multi_meal-Unchanged e net db p))
        (λ _. unchanged _ (get_meal-Unchanged e net db p))
        (λ _. unchanged _ (get_multi_meal-Unchanged e net db p)) (Ensures-some db _ h)).at

  pub dispatch-WellFormed :
      PlainText p.id
      → PlainText p.pw
      → (db' : e.Db) (sent : List Bytes) → dispatch e net db p ≡ some (db', sent)
      → WellFormed (q.view db')
  dispatch-WellFormed hi hp = dispatch-WellFormed_if (λ _. (hi, hp))
