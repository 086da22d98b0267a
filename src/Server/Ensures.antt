-- ===== src/Server/Ensures.antt =====
-- A postcondition of a reply, with a rule for each way in which handle_client builds one.
use school_meals.Base.{
  String, ◌≡◌, refl, subst, Bool, true, false, Option, none, some, List, [], ◌>>=◌, if◌then◌else◌,
}
use school_meals.CString.{Bytes, bytes, bytes_eq}
use school_meals.Protocol.{resp_error}
use school_meals.Db.{Engine}
use school_meals.Neis.{MealService}
use school_meals.Server.Request.{Params, Reply, say, need, report}
use school_meals.Server.Account.{login, register, update, delete}
use school_meals.Server.Child.{get_children, add_child, delete_child, child_meal, child_multi_meal}
use school_meals.Server.Meal.{get_meal, get_multi_meal}
use school_meals.Server.Dispatch.{dispatch}

-- Where the behaviour is defined, the database and the texts sent satisfy `P`.
pub record Ensures {Db : Type 0} (P : Db → List Bytes → Type 0) (r : Reply Db) : Type 0 where
  pub at : (db : Db) (sent : List Bytes) → r ≡ some (db, sent) → P db sent

abbrev Holds : {Db : Type 0} → (Db → List Bytes → Type 0) → Reply Db → Type 0
Holds P none = Unit
Holds P (some (db, sent)) = P db sent

module _ {Db : Type 0} {P : Db → List Bytes → Type 0} where
  pub Ensures-some : (db : Db) (sent : List Bytes) → P db sent → Ensures P (some (db, sent))
  Ensures-some db sent h = record { at = λ db' sent' e. subst (Holds P) e h }

  pub Ensures-none : Ensures P none
  Ensures-none = record { at = λ db sent e. cc }

  pub Ensures-if :
      (b : Bool) (r s : Reply Db)
      → (b ≡ true → Ensures P r)
      → (b ≡ false → Ensures P s)
      → Ensures P (if b then r else s)
  Ensures-if true r s hr hs = hr refl
  Ensures-if false r s hr hs = hs refl

  pub Ensures-need :
      (db : Db) (o : Option Bytes) (body : Bytes → Reply Db)
      → Ensures P (say db resp_error "잘못된 요청" [])
      → ((a : Bytes) → o ≡ some a → Ensures P (body a))
      → Ensures P (need db o body)
  Ensures-need db none body hn hb = hn
  Ensures-need db (some a) body hn hb = hb a refl

  pub Ensures-bind {ℓ} :
      {A : Type ℓ} (o : Option A) (f : A → Reply Db)
      → ((a : A) → o ≡ some a → Ensures P (f a))
      → Ensures P (o >>= f)
  Ensures-bind none f h = Ensures-none
  Ensures-bind (some a) f h = h a refl

  pub Ensures-report :
      (done : String) (r : Bool × Db)
      → ((sent : List Bytes) → P r.1 sent)
      → Ensures P (report done r)
  Ensures-report done (true, db) h = Ensures-some db _ (h _)
  Ensures-report done (false, db) h = Ensures-some db _ (h _)

  pub Ensures-mono :
      {Q : Db → List Bytes → Type 0} (r : Reply Db)
      → ((db : Db) (sent : List Bytes) → P db sent → Q db sent)
      → Ensures P r
      → Ensures Q r
  Ensures-mono r f h = record { at = λ db sent e. f db sent (h.at db sent e) }

pub ruleset ensures_rules = (Ensures-none, Ensures-if, Ensures-need, Ensures-bind)

-- What every handler ensures, handle_client ensures.
module _ (e : Engine) (net : MealService) {P : e.Db → List Bytes → Type 0} (db : e.Db)
    (p : Params) where
  pub Ensures-dispatch :
      (bytes_eq p.cmd (bytes "LOGIN") ≡ true → Ensures P (login e db p))
      → (bytes_eq p.cmd (bytes "REGISTER_GENERAL") ≡ true → Ensures P (register e net db p))
      → (bytes_eq p.cmd (bytes "UPDATE") ≡ true → Ensures P (update e net db p))
      → (bytes_eq p.cmd (bytes "DELETE") ≡ true → Ensures P (delete e db p))
      → (bytes_eq p.cmd (bytes "GET_CHILDREN") ≡ true → Ensures P (get_children e db p))
      → (bytes_eq p.cmd (bytes "ADD_CHILD") ≡ true → Ensures P (add_child e db p))
      → (bytes_eq p.cmd (bytes "DEL_CHILD") ≡ true → Ensures P (delete_child e db p))
      → (bytes_eq p.cmd (bytes "CHILD_MEAL") ≡ true → Ensures P (child_meal e db p))
      → (bytes_eq p.cmd (bytes "CHILD_MULTI_MEAL") ≡ true → Ensures P (child_multi_meal e db p))
      → (bytes_eq p.cmd (bytes "GET_MEAL") ≡ true → Ensures P (get_meal net db p))
      → (bytes_eq p.cmd (bytes "GET_MULTI_MEAL") ≡ true → Ensures P (get_multi_meal net db p))
      → Ensures P (say db resp_error "알 수 없는 명령어" [])
      → Ensures P (dispatch e net db p)
  unfolding dispatch
  Ensures-dispatch a b c d f g h i j k l m = Ensures-if (bytes_eq p.cmd (bytes "LOGIN")) _ _ a λ _.
      Ensures-if (bytes_eq p.cmd (bytes "REGISTER_GENERAL")) _ _ b λ _.
        Ensures-if (bytes_eq p.cmd (bytes "UPDATE")) _ _ c λ _.
          Ensures-if (bytes_eq p.cmd (bytes "DELETE")) _ _ d λ _.
            Ensures-if (bytes_eq p.cmd (bytes "GET_CHILDREN")) _ _ f λ _.
              Ensures-if (bytes_eq p.cmd (bytes "ADD_CHILD")) _ _ g λ _.
                Ensures-if (bytes_eq p.cmd (bytes "DEL_CHILD")) _ _ h λ _.
                  Ensures-if (bytes_eq p.cmd (bytes "CHILD_MEAL")) _ _ i λ _.
                    Ensures-if (bytes_eq p.cmd (bytes "CHILD_MULTI_MEAL")) _ _ j λ _.
                      Ensures-if (bytes_eq p.cmd (bytes "GET_MEAL")) _ _ k
                        λ _. Ensures-if (bytes_eq p.cmd (bytes "GET_MULTI_MEAL")) _ _ l λ _. m
