-- ===== src/Server/Main/Balance.antt =====
-- What main of server/server.c takes, it gives back.
use school_meals.Base.{Bool, not, ◌&&◌}
use school_meals.Db.{Engine}
use school_meals.Db.Schema.{init_db}
use school_meals.Server.Main.{Host}

module _ (e : Engine) (host : Host e.Db) where
  abbrev pub database_fails : Bool
  database_fails = host.network_starts && not (init_db e (host.opened, host.file)).0
