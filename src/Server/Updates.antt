-- ===== src/Server/Updates.antt =====
-- An update that handle_client serves, and the login after it.
use school_meals.Db.Tables.{Tables}
use school_meals.Db.WellFormed.{WellFormed}
