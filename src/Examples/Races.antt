-- ===== src/Examples/Races.antt =====
-- Two registrations of the same id at the same time: both threads ask before one of them inserts.
use school_meals.Base.{◌≡◌, refl, true, false, [], ◌∷◌, arith, any}
use school_meals.CString.{Bytes, bytes, bytes_eq}
use school_meals.CString.Tokens.{Lacks-of_test}
use school_meals.Db.Tables.{has_id}
use school_meals.Db.TableEngine.{table_engine, table_sqlite}
use school_meals.Server.Threads.Race.{interleave}
use school_meals.Server.Threads.Race.Contender.{row_for}
use school_meals.Server.Threads.Race.Outcome.{Won, registering, registrations_race}
use school_meals.Examples.Data.{
  user123, pin, office, school, b10, school_code, one_row, service, service-HasPlainCodes,
}

abbrev other_pin : Bytes
other_pin = bytes "5678"

user123-free : any (has_id user123) one_row.users ≡ false
unfolding bytes_eq
user123-free = refl

registrations_race_example :
    Won table_engine table_sqlite
      (row_for user123 pin b10 school_code)
      (row_for user123 other_pin b10 school_code)
      one_row
      (interleave
        (true ∷ false ∷ false ∷ [])
        (registering table_engine service user123 pin office school)
        (registering table_engine service user123 other_pin office school)
        one_row)
unfolding table_sqlite
registrations_race_example =
    registrations_race table_engine table_sqlite service service-HasPlainCodes
      (true ∷ false ∷ false ∷ []) user123 pin office school b10 school_code other_pin office school
      b10 school_code one_row (omega arith) (Lacks-of_test (b'\'' ∷ []) user123 refl)
      (Lacks-of_test (b'\'' ∷ []) pin refl) (Lacks-of_test (b'\'' ∷ []) other_pin refl) refl refl
      user123-free
