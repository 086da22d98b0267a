-- ===== src/Server/Rounds.antt =====
-- The loop of handle_client keeps the tables well formed.
use school_meals.Base.{
  ◌≡◌, subst, Option, Option-cases, inl, inr, none, some, List, [], ◌∷◌, ◌++◌, All,
}
use school_meals.CString.{Bytes}
use school_meals.Db.{Engine}
use school_meals.Db.Laws.{Sqlite}
use school_meals.Db.WellFormed.{WellFormed}
use school_meals.Neis.{HasPlainCodes}
use school_meals.Server.Request.{Params, parse_request}
use school_meals.Server.Dispatch.{serve_params, serve, Round, to_serve, handle_client}
use school_meals.Server.Ensures.{Ensures, Ensures-some, Ensures-bind}
use school_meals.Server.Invariant.{PlainText, dispatch-WellFormed}

abbrev PlainParams : Option Params → Type 0
PlainParams none = Unit
PlainParams (some p) = PlainText p.id × PlainText p.pw

abbrev PlainRequest : Option Bytes → Type 0
PlainRequest none = Unit
PlainRequest (some received) = PlainParams (parse_request received)

-- The meal service has plain codes, and the request, if one is read, no quote in id and password.
abbrev pub IsPlainRound : Round → Type 0
IsPlainRound r = HasPlainCodes r.net × PlainRequest (to_serve r)

module _ (e : Engine) (q : Sqlite e) where
  abbrev Keeps : e.Db → List Bytes → Type 0
  Keeps db sent = WellFormed (q.view db)

  serve_params-Keeps :
      (r : Round) (db : e.Db) (p : Option Params)
      → HasPlainCodes r.net
      → PlainParams p
      → WellFormed (q.view db)
      → Ensures Keeps (serve_params e r.net db p)
  unfolding serve_params
  serve_params-Keeps r db none hn plain h = Ensures-some db _ h
  serve_params-Keeps r db (some p) hn (hi, hp) h = record {
    at = λ db' sent same. dispatch-WellFormed e q r.net hn db h p hi hp db' sent same;
  }

  serve-Keeps :
      (r : Round) (db : e.Db) (received : Bytes)
      → HasPlainCodes r.net
      → PlainRequest (some received)
      → WellFormed (q.view db)
      → Ensures Keeps (serve e r.net db received)
  unfolding serve
  serve-Keeps r db received = serve_params-Keeps r db (parse_request received)

  rounds-Keeps :
      (rounds : List Round) (db : e.Db) (sent : List Bytes)
      → All IsPlainRound rounds
      → WellFormed (q.view db)
      → Ensures Keeps (handle_client e rounds db sent)
  unfolding handle_client
  rounds-Keeps [] db sent plain h = Ensures-some db sent h
  rounds-Keeps (r ∷ rounds) db sent ((hn, plain), later) h = elim (Option-cases (to_serve r)) [
    | inl over ↦ rw (handle_client, over) (Ensures-some db sent h)
    | inr (received, is) ↦
        rw (handle_client, is)
          (Ensures-bind (serve e r.net db received)
            (λ (reply : e.Db × List Bytes). handle_client e rounds reply.0 (sent ++ reply.1))
            (λ reply same. rounds-Keeps rounds reply.0 (sent ++ reply.1) later (
              (serve-Keeps r db received hn (subst PlainRequest is plain) h).at reply.0 reply.1
                same)))
  ]

  -- However many rounds a connection has, and whenever it ends, the tables stay well formed, if in
  -- each round the meal service has plain codes and the request no quote in id and password.
  pub handle_client-WellFormed :
      (rounds : List Round) (db : e.Db) (sent : List Bytes)
      → All IsPlainRound rounds
      → WellFormed (q.view db)
      → (db' : e.Db) (sent' : List Bytes) → handle_client e rounds db sent ≡ some (db', sent')
      → WellFormed (q.view db')
  handle_client-WellFormed rounds db sent plain h = (rounds-Keeps rounds db sent plain h).at
