-- ===== src/Examples/Rounds.antt =====
-- A connection that deletes an account and ends.
use school_meals.Base.{◌≡◌, refl, true, some, none, [], ◌∷◌}
use school_meals.CString.{
  Bytes, bytes, bytes_eq, cut_at_zero, strtok, skip_delims, first_token, token_of, after_token,
}
use school_meals.CString.Tokens.{Lacks-of_test}
use school_meals.Protocol.{response, resp_success}
use school_meals.Db.{delete_user}
use school_meals.Db.Tables.{Tables, delete_users}
use school_meals.Db.WellFormed.{WellFormed}
use school_meals.Db.TableEngine.{table_engine, table_sqlite, table_step}
use school_meals.Server.Request.{parse_request, params_of, common_params}
use school_meals.Server.Account.{delete}
use school_meals.Server.Dispatch.{Round, dispatch, serve_params, serve, handle_client}
use school_meals.Server.Rounds.{IsPlainRound, handle_client-WellFormed}
use school_meals.Examples.Data.{one_row, one_row-WellFormed, service, service-HasPlainCodes}

abbrev deletion : Round
deletion = record { running = true; received = some (bytes "DELETE//old1"); net = service }

abbrev hangup : Round
hangup = record { running = true; received = none; net = service }

abbrev no_rows : Tables
no_rows = record { users = []; children = []; meals = [] }

abbrev done : Bytes
done = response resp_success (bytes "사용자 삭제 성공") []

deletion-IsPlainRound : IsPlainRound deletion
unfolding parse_request params_of common_params cut_at_zero strtok skip_delims first_token token_of
    after_token bytes_eq
deletion-IsPlainRound =
    (service-HasPlainCodes, (Lacks-of_test (b'\'' ∷ []) (bytes "old1") refl, tt))

run : handle_client table_engine (deletion ∷ hangup ∷ []) one_row [] ≡ some (no_rows, done ∷ [])
unfolding handle_client serve serve_params parse_request params_of common_params cut_at_zero strtok
    skip_delims first_token token_of after_token bytes_eq dispatch delete delete_user table_step
    delete_users
run = refl

handle_client-WellFormed_example : WellFormed no_rows
unfolding table_sqlite
handle_client-WellFormed_example =
    handle_client-WellFormed table_engine table_sqlite (deletion ∷ hangup ∷ []) one_row []
      (deletion-IsPlainRound, ((service-HasPlainCodes, tt), tt)) one_row-WellFormed no_rows
      (done ∷ []) run
