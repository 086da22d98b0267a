-- ===== src/Server/Threads/Interleaved.antt =====
-- However the statements of several threads come between each other, the tables stay well formed.
use school_meals.Base.{Bool, some, List, [], ◌∷◌, ◌++◌, All, All-append, All-middle}
use school_meals.CString.{Bytes}
use school_meals.Db.{Engine}
use school_meals.Db.Laws.{Sqlite}
use school_meals.Db.WellFormed.{WellFormed}
use school_meals.Neis.{MealService, HasPlainCodes}
use school_meals.Server.Request.{Params}
use school_meals.Server.Threads.{Thread, finish, reads, writes, thread_of}
use school_meals.Server.Threads.Safe.{IsPlainRequest, Safe, thread_of-Safe}

module _ (e : Engine) where
  -- The database and the threads that serve a request
  pub data Step : e.Db × List (Thread e.Db) → e.Db × List (Thread e.Db) → Type 0 where
    begins :
        {db : e.Db} {threads : List (Thread e.Db)} (net : MealService) (p : Params)
        → HasPlainCodes net
        → IsPlainRequest p
        → Step (db, threads) (db, thread_of e net p ∷ threads)
    reading :
        {db : e.Db} (before after : List (Thread e.Db)) (f : e.Db → Thread e.Db)
        → Step (db, before ++ reads f ∷ after) (db, before ++ f db ∷ after)
    writing :
        {db : e.Db} (before after : List (Thread e.Db)) (w : e.Db → Bool × e.Db)
        (f : Bool → Thread e.Db)
        → Step (db, before ++ writes w f ∷ after) ((w db).1, before ++ f (w db).0 ∷ after)
    sending :
        {db : e.Db} (before after : List (Thread e.Db)) (texts : List Bytes)
        → Step (db, before ++ finish (some texts) ∷ after) (db, before ++ after)

  pub data Reachable (start : e.Db) : e.Db × List (Thread e.Db) → Type 0 where
    started : Reachable start (start, [])
    next :
        {state state' : e.Db × List (Thread e.Db)}
        → Reachable start state
        → Step state state'
        → Reachable start state'

module _ (e : Engine) (q : Sqlite e) where
  -- The statements of any number of threads may come in any order: from well-formed tables every
  -- state has well-formed tables, if each request that begins is no registration or has no quote in
  -- its id and password, and the meal service has plain codes.
  pub Reachable-WellFormed_threads :
      (start : e.Db) (state : e.Db × List (Thread e.Db))
      → WellFormed (q.view start)
      → Reachable e start state
      → WellFormed (q.view state.0) × All (Safe e q) state.1
  Reachable-WellFormed_threads start state h started = (h, tt)
  Reachable-WellFormed_threads start state h (next reach (begins net p hn plain)) =
      let (hd, hs) = Reachable-WellFormed_threads start _ h reach in
      (hd, (thread_of-Safe e q net hn p plain, hs))
  Reachable-WellFormed_threads start state h (next reach (reading {db = db} before after f)) =
      let (hd, hs) = Reachable-WellFormed_threads start _ h reach in
      let (hb, hf, ha) = All-middle (Safe e q) before (reads f) after hs in
      (hd, All-append (Safe e q) before (f db ∷ after) hb (hf db, ha))
  Reachable-WellFormed_threads start state h (next reach (writing {db = db} before after w f)) =
      let (hd, hs) = Reachable-WellFormed_threads start _ h reach in
      let (hb, (keeps, hf), ha) = All-middle (Safe e q) before (writes w f) after hs in
      (keeps db hd, All-append (Safe e q) before (f (w db).0 ∷ after) hb (hf (w db).0, ha))
  Reachable-WellFormed_threads start state h (next reach (sending before after texts)) =
      let (hd, hs) = Reachable-WellFormed_threads start _ h reach in
      let (hb, _, ha) = All-middle (Safe e q) before (finish (some texts)) after hs in
      (hd, All-append (Safe e q) before after hb ha)
