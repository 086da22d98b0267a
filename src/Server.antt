-- ===== src/Server.antt =====
-- server/server.c
pub mod Request
pub mod Account
pub mod Child
pub mod Meal
pub mod Dispatch
pub mod Main
pub mod Threads
pub mod Network
pub mod Handlers
pub mod Wire
pub mod Ensures
pub mod Frame
pub mod Invariant
pub mod Login
pub mod Requests
pub mod Sessions
pub mod Updates
pub mod Clients
pub mod Rounds
pub mod OwnMeal
pub mod OwnPeriod
