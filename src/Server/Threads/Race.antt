-- ===== src/Server/Threads/Race.antt =====
-- Two threads of server/server.c that serve one request each, in an order of their statements that
-- is given.
pub mod Contender
pub mod Outcome
use school_meals.Base.{Bool, true, false, Option, none, some, List, [], ◌∷◌, ◌>>=◌}
use school_meals.CString.{Bytes, bytes}
use school_meals.Server.Request.{Params}
use school_meals.Server.Threads.{Thread, finish, reads, writes, run}

module _ {Db : Type 0} where
  -- One statement; a thread that has only to send waits.
  abbrev pub thread_step : Thread Db → Db → Db × Thread Db
  thread_step (finish texts) db = (db, finish texts)
  thread_step (reads f) db = (db, f db)
  thread_step (writes w f) db = ((w db).1, f (w db).0)

  -- After the turns, `true` for a statement of the first thread, what is left of the first comes, and
  -- then what is left of the second: the database, and what each has sent.
  unfoldable pub interleave :
      List Bool → Thread Db → Thread Db → Db → Option (Db × List Bytes × List Bytes)
  unfolding run
  interleave [] first second db = do
    (db', sent) ← run first db
    (db'', sent') ← run second db'
    some (db'', sent, sent')
  interleave (true ∷ turns) first second db =
      let (db', first') = thread_step first db in interleave turns first' second db'
  interleave (false ∷ turns) first second db =
      let (db', second') = thread_step second db in interleave turns first second' db'

-- What the server reads from REGISTER_GENERAL//id//pw//edu_office//school_name
abbrev pub registration : Bytes → Bytes → Bytes → Bytes → Params
registration id pw edu_office school_name = record {
  cmd = bytes "REGISTER_GENERAL";
  id = some id;
  pw = some pw;
  edu_office = some edu_office;
  school_name = some school_name;
  date = none;
  child_id = none;
  period = none;
}
