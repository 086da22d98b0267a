-- ===== src/Examples/Menus.antt =====
-- Choices of the general menu.
use school_meals.CString.{Bytes, bytes}
use school_meals.Client.Handlers.{Session}
use school_meals.Client.Login.{session_of}
use school_meals.Examples.Data.{user123, b10, school_code}

abbrev user : Session
user = session_of user123 b10 school_code (bytes "GENERAL")

abbrev june_21 : Bytes
june_21 = bytes "20240621"

abbrev june_24 : Bytes
june_24 = bytes "20240624"
