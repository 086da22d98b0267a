-- ===== src/System/Invariant.antt =====
-- What clients and server keep, in whatever order the clients act.
use school_meals.Base.{
  ℕ, ◌≡◌, subst, sym, ap, ◌∙◌, Option, none, some, List, ◌∷◌, bind-some, All, All-append,
  All-middle,
}
use school_meals.CString.{Bytes}
use school_meals.Db.{Engine}
use school_meals.Db.Laws.{Sqlite}
use school_meals.Db.WellFormed.{WellFormed}
use school_meals.Neis.{MealService, HasPlainCodes}
use school_meals.Server.Request.{Params, parse_request}
use school_meals.Server.Dispatch.{serve_params, serve}
use school_meals.Server.Invariant.{dispatch-WellFormed_if}
use school_meals.Client.Handlers.{Session}
use school_meals.Client.Sent.{IsSent, Sent}
use school_meals.Client.Sent.Plain.{IsPlain, IsSent-IsPlain}
use school_meals.Client.App.{Keys, After, exited, again, client_round}
use school_meals.Client.App.Rounds.{client_round-Sent}
use school_meals.Client.App.Fits.{Fits, no_session-Fits, client_round-Fits}
use school_meals.System.{served, system_round, connected, acted, left, Reachable, started, next}

module _ (e : Engine) (q : Sqlite e) where
  serve_params-WellFormed :
      (net : MealService) (db db' : e.Db) (sent : List Bytes) (p : Option Params)
      → HasPlainCodes net
      → IsPlain p
      → WellFormed (q.view db)
      → serve_params e net db p ≡ some (db', sent)
      → WellFormed (q.view db')
  unfolding serve_params
  serve_params-WellFormed net db db' sent none hn plain h is =
      subst (λ d. WellFormed (q.view d)) (cc) h
  serve_params-WellFormed net db db' sent (some p) hn plain h is =
      dispatch-WellFormed_if e q net hn db h p plain db' sent is

  -- A request of the client keeps the tables well formed.
  serve-WellFormed :
      (net : MealService) (db db' : e.Db) (sent : List Bytes) (request : Bytes)
      → HasPlainCodes net
      → IsSent request
      → WellFormed (q.view db)
      → serve e net db request ≡ some (db', sent)
      → WellFormed (q.view db')
  unfolding serve
  serve-WellFormed net db db' sent request hn by_client h =
      serve_params-WellFormed net db db' sent (parse_request request) hn
        (IsSent-IsPlain request by_client) h

  abbrev SentIn : After → Type 0
  SentIn exited = Unit
  SentIn (again session request) = Sent request

  served-WellFormed :
      (net : MealService) (db db' : e.Db) (result result' : After)
      → HasPlainCodes net
      → SentIn result
      → WellFormed (q.view db)
      → served e net db result ≡ some (db', result')
      → WellFormed (q.view db') × (result' ≡ result)
  served-WellFormed net db db' exited result' hn by_client h is =
      (subst (λ d. WellFormed (q.view d)) (cc) h, cc)
  served-WellFormed net db db' (again session none) result' hn by_client h is =
      (subst (λ d. WellFormed (q.view d)) (cc) h, cc)
  served-WellFormed net db db' (again session (some request)) result' hn by_client h is =
      let ((db'', sent), answered, is') = bind-some (serve e net db request) _ _ is in
      let same : db'' ≡ db' = cc in
      (
        subst (λ d. WellFormed (q.view d)) same
            (serve-WellFormed net db db'' sent request hn by_client h answered),
        cc,
      )

  client_round-SentIn :
      (session : Session) (keys : Keys) (result : After)
      → client_round session keys ≡ some result
      → SentIn result
  client_round-SentIn session keys exited is = tt
  client_round-SentIn session keys (again session' request) is =
      client_round-Sent session session' keys request is

  -- A round of a client, whatever is typed
  system_round-WellFormed :
      (net : MealService) (db db' : e.Db) (session : Session) (choice sub_choice : ℕ)
      (lines : List Bytes) (result : After)
      → HasPlainCodes net
      → WellFormed (q.view db)
      → system_round e net db session choice sub_choice lines ≡ some (db', result)
      → WellFormed (q.view db') × (keys : Keys) × (client_round session keys ≡ some result)
  unfolding system_round
  system_round-WellFormed net db db' session choice sub_choice lines result hn h is =
      let (result', round, rest) = bind-some (client_round session _) _ _ is in
      let (h', same) =
        served-WellFormed net db db' result' result hn (client_round-SentIn session _ result' round)
          h rest in
      (h', _, round ∙ ap some (sym same))

  -- In whatever order clients connect, act and leave, and whatever they type, the tables stay well
  -- formed and the texts in the globals of every client fit their buffers, if the meal service has
  -- plain codes in every round.
  pub Reachable-WellFormed :
      (start : e.Db) (state : e.Db × List Session)
      → WellFormed (q.view start)
      → Reachable e start state
      → WellFormed (q.view state.0) × All Fits state.1
  Reachable-WellFormed start state h started = (h, tt)
  Reachable-WellFormed start state h (next reach connected) =
      let (hd, hs) = Reachable-WellFormed start _ h reach in (hd, (no_session-Fits, hs))
  Reachable-WellFormed start state h
        (next reach
          (acted before after session session' net choice sub_choice lines request hn is)) =
      let (hd, hs) = Reachable-WellFormed start _ h reach in
      let (hb, h_session, ha) = All-middle Fits before session after hs in
      let (hd', keys, round) =
        system_round-WellFormed net _ _ session choice sub_choice lines _ hn hd is in
      (
        hd',
        All-append Fits before (session' ∷ after) hb
            ((client_round-Fits session session' keys request round h_session, ha)),
      )
  Reachable-WellFormed start state h (next reach (left before after session keys is)) =
      let (hd, hs) = Reachable-WellFormed start _ h reach in
      let (hb, _, ha) = All-middle Fits before session after hs in
      (hd, All-append Fits before after hb ha)
