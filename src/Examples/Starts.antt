-- ===== src/Examples/Starts.antt =====
-- The server from its start to its end, over a file without tables.
use school_meals.Base.{refl, Bool, true, false, none, [], ◌∷◌, arith, if◌then◌else◌, replicate}
use school_meals.CString.{Bytes, bytes_eq}
use school_meals.Db.{Engine}
use school_meals.Db.Schema.{
  foreign_keys_on, create_users_table, create_children_table, create_meals_table, Catalog,
  with_foreign_keys, with_users, with_children, with_meals, Creates,
}
use school_meals.Server.Clients.{max_clients, slot_of, accept_client, end_client}
use school_meals.Server.Main.{accepted, ended, Host}
use school_meals.Server.Main.Sockets.{IsRun}

abbrev create : Catalog → Bytes → Bool × Catalog
create c sql =
    if bytes_eq sql foreign_keys_on
    then (true, with_foreign_keys c)
    else if bytes_eq sql create_users_table
    then (true, with_users c)
    else if bytes_eq sql create_children_table
    then (true, with_children c)
    else if bytes_eq sql create_meals_table
    then (true, with_meals c)
    else (false, c)

abbrev catalog_engine : Engine
catalog_engine = record {
  Db = Catalog;
  prepare = λ c sql. false;
  rows = λ c sql params. [];
  step = λ c sql params. (false, c);
  exec = create;
}

abbrev catalog_engine-Creates : Creates catalog_engine
unfolding bytes_eq
catalog_engine-Creates = record {
  catalog = λ c. c;
  exec_foreign_keys = λ c. refl;
  exec_users = λ c. refl;
  exec_children = λ c. refl;
  exec_meals = λ c. refl;
}

abbrev new_file : Catalog
new_file = record { foreign_keys = false; users = none; children = none; meals = none }

abbrev host : Host Catalog
host = record {
  network_starts = true;
  opened = true;
  file = new_file;
  socket_created = true;
  option_set = true;
  bound = true;
  listening = true;
}

run : IsRun (accepted 5 true ∷ accepted 6 false ∷ ended 5 ∷ []) (replicate max_clients 0)
unfolding accept_client slot_of end_client
run = ((λ h. omega arith), refl, ((λ h. omega arith), refl, ((λ h. omega arith), refl, tt)))
