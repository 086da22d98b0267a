-- ===== src/System.antt =====
-- Clients and the server together: the loop of client/client.c, whose requests handle_client of
-- server/server.c serves. A request and its answer arrive whole (Client.Network and Server.Dispatch
-- say what the two ends do with the bytes), and a request is served before the next one is.
pub mod Invariant
pub mod Journey
use school_meals.Base.{ℕ, ◌≡◌, Option, none, some, List, [], ◌∷◌, ◌++◌, ◌>>=◌}
use school_meals.CString.{Bytes, bytes}
use school_meals.Db.{Engine}
use school_meals.Neis.{MealService, HasPlainCodes}
use school_meals.Server.Request.{Reply}
use school_meals.Server.Dispatch.{serve}
use school_meals.Client.Network.{Outcome, not_received, answered}
use school_meals.Client.Handlers.{Session}
use school_meals.Client.App.{Keys, After, exited, again, client_round, no_session}

-- What the client's exchange makes of what the server sends: nothing is the timeout of select.
abbrev pub outcome_of_reply : {Db : Type 0} → Reply Db → Outcome
outcome_of_reply none = not_received []
outcome_of_reply (some (db, [])) = not_received (bytes "서버 응답 시간 초과")
outcome_of_reply (some (db, text ∷ sent)) = answered text

module _ (e : Engine) (net : MealService) (db : e.Db) where
  open e use {Db}

  -- The database behind a round of a client
  abbrev pub served : After → Option (Db × After)
  served exited = some (db, exited)
  served (again session none) = some (db, again session none)
  served (again session (some request)) = do
    (db', sent) ← serve e net db request
    some (db', again session (some request))

  -- A round of one client, for the choices and the lines that are typed
  unfoldable pub system_round : Session → ℕ → ℕ → List Bytes → Option (Db × After)
  unfolding client_round serve
  system_round session choice sub_choice lines =
      client_round session (record {
        choice = choice;
        sub_choice = sub_choice;
        lines = lines;
        answer = λ request. outcome_of_reply (serve e net db request);
      })
      >>= served

module _ (e : Engine) where
  open e use {Db}

  -- The database and the sessions of the clients that are running. Each round may find the meal
  -- service with other answers.
  pub data Step : Db × List Session → Db × List Session → Type 0 where
    connected : {db : Db} {clients : List Session} → Step (db, clients) (db, no_session ∷ clients)
    acted :
        {db db' : Db} (before after : List Session) (session session' : Session) (net : MealService)
        (choice sub_choice : ℕ) (lines : List Bytes) (request : Option Bytes)
        → HasPlainCodes net
        → system_round e net db session choice sub_choice lines ≡ some (db', again session' request)
        → Step (db, before ++ session ∷ after) (db', before ++ session' ∷ after)
    left :
        {db : Db} (before after : List Session) (session : Session) (keys : Keys)
        → client_round session keys ≡ some exited
        → Step (db, before ++ session ∷ after) (db, before ++ after)

  pub data Reachable (start : Db) : Db × List Session → Type 0 where
    started : Reachable start (start, [])
    next :
        {state state' : Db × List Session}
        → Reachable start state
        → Step state state'
        → Reachable start state'
