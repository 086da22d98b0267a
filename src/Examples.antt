-- ===== src/Examples.antt =====
-- Concrete data, and each theorem with hypotheses at a place where they hold.
mod Texts
mod Tables
mod Sessions
mod Rounds
mod Menus
mod Meals
pub mod Races
pub mod Data
mod Apps
mod Starts
mod Threads
mod Families
