-- ===== src/Server/Dispatch.antt =====
-- The loop of handle_client.
use school_meals.Base.{
  Bool, Option, none, some, List, [], ◌∷◌, ◌++◌, ◌-◌, ◌>>=◌, take, if◌then◌else◌,
}
use school_meals.CString.{Bytes, bytes, bytes_eq}
use school_meals.Protocol.{buffer_size, resp_error}
use school_meals.Db.{Engine}
use school_meals.Neis.{MealService}
use school_meals.Server.Request.{Params, Reply, say, parse_request}
use school_meals.Server.Account.{login, register, update, delete}
use school_meals.Server.Child.{get_children, add_child, delete_child, child_meal, child_multi_meal}
use school_meals.Server.Meal.{get_meal, get_multi_meal}

module _ (e : Engine) (net : MealService) where
  open e use {Db}

  -- The second half of the loop body: the chain of strcmp on the command.
  unfoldable pub dispatch : Db → Params → Reply Db
  dispatch db p =
      if bytes_eq p.cmd (bytes "LOGIN")
      then login e db p
      else if bytes_eq p.cmd (bytes "REGISTER_GENERAL")
      then register e net db p
      else if bytes_eq p.cmd (bytes "UPDATE")
      then update e net db p
      else if bytes_eq p.cmd (bytes "DELETE")
      then delete e db p
      else if bytes_eq p.cmd (bytes "GET_CHILDREN")
      then get_children e db p
      else if bytes_eq p.cmd (bytes "ADD_CHILD")
      then add_child e db p
      else if bytes_eq p.cmd (bytes "DEL_CHILD")
      then delete_child e db p
      else if bytes_eq p.cmd (bytes "CHILD_MEAL")
      then child_meal e db p
      else if bytes_eq p.cmd (bytes "CHILD_MULTI_MEAL")
      then child_multi_meal e db p
      else if bytes_eq p.cmd (bytes "GET_MEAL")
      then get_meal net db p
      else if bytes_eq p.cmd (bytes "GET_MULTI_MEAL")
      then get_multi_meal net db p
      else say db resp_error "알 수 없는 명령어" []

  unfoldable pub serve_params : Db → Option Params → Reply Db
  serve_params db none = say db resp_error "잘못된 요청" []
  serve_params db (some p) = dispatch db p

  -- One round of the loop, on the bytes that recv returned.
  unfoldable pub serve : Db → Bytes → Reply Db
  serve db received = serve_params db (parse_request received)

-- One round: the flag `running` when the loop tests it, what recv returned (`none` or nothing at
-- all ends the loop), and the answers of the meal service meanwhile.
pub record Round : Type 0 where
  pub running : Bool
  pub received : Option Bytes
  pub net : MealService

abbrev pub to_serve : Round → Option Bytes
to_serve r =
    if r.running
    then (elim r.received [
      | none ↦ none
      | some [] ↦ none
      | some (c ∷ s) ↦ some (take (buffer_size - 1) (c ∷ s))
    ])
    else none

module _ (e : Engine) where
  open e use {Db}

  -- handle_client, from a database and what it has sent so far
  unfoldable pub handle_client : List Round → Db → List Bytes → Reply Db
  handle_client [] db sent = some (db, sent)
  handle_client (r ∷ rounds) db sent = elim (to_serve r) [
    | none ↦ some (db, sent)
    | some received ↦ do
      (db', replies) ← serve e r.net db received
      handle_client rounds db' (sent ++ replies)
  ]
