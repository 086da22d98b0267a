-- ===== src/Examples/Threads.antt =====
-- Threads of the server over one row of users.
use school_meals.Base.{◌≡◌, refl, true, none, some, List, [], ◌∷◌, All}
use school_meals.CString.{bytes, bytes_eq}
use school_meals.Db.{delete_user}
use school_meals.Db.Tables.{Tables, delete_users}
use school_meals.Db.WellFormed.{WellFormed}
use school_meals.Db.TableEngine.{table_engine, table_sqlite, table_step}
use school_meals.Server.Request.{Params}
use school_meals.Server.Threads.{Thread, writes, told, thread_of}
use school_meals.Server.Threads.Safe.{Safe}
use school_meals.Server.Threads.Interleaved.{
  Reachable, started, next, begins, writing, Reachable-WellFormed_threads,
}
use school_meals.Examples.Data.{one_row, one_row-WellFormed, service, service-HasPlainCodes}

abbrev deletion : Params
deletion = record {
  cmd = bytes "DELETE";
  id = some (bytes "old1");
  pw = none;
  edu_office = none;
  school_name = none;
  date = none;
  child_id = none;
  period = none;
}

abbrev deleting : Thread Tables
deleting = writes (λ db. delete_user table_engine db (bytes "old1")) (told "사용자 삭제 성공")

thread-deleting : thread_of table_engine service deletion ≡ deleting
unfolding thread_of bytes_eq
thread-deleting = refl

abbrev no_rows : Tables
no_rows = record { users = []; children = []; meals = [] }

-- Two requests to delete the same account: the first has been written.
abbrev two_deletions : Tables × List (Thread Tables)
two_deletions = (no_rows, told "사용자 삭제 성공" true ∷ deleting ∷ [])

reached : Reachable table_engine one_row two_deletions
unfolding thread_of bytes_eq delete_user delete_users table_step
reached =
    next
      (next (next started (begins service deletion service-HasPlainCodes (λ c. cc)))
        (begins service deletion service-HasPlainCodes (λ c. cc)))
      (writing [] (deleting ∷ []) (λ db. delete_user table_engine db (bytes "old1"))
        (told "사용자 삭제 성공"))

Reachable-WellFormed_threads_example :
    WellFormed no_rows
    × All (Safe table_engine table_sqlite) (told "사용자 삭제 성공" true ∷ deleting ∷ [])
unfolding table_sqlite
Reachable-WellFormed_threads_example =
    Reachable-WellFormed_threads table_engine table_sqlite one_row two_deletions one_row-WellFormed
      reached
