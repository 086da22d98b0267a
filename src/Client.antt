-- ===== src/Client.antt =====
-- The client: the network (client/network.c), the request handlers (client/handlers.c) and the
-- general menu (client/menu_general.c).
pub mod Network
pub mod Handlers
pub mod Login
pub mod Received
pub mod Pieces
pub mod Journey
pub mod Menu
pub mod LoginMenu
pub mod Sent
pub mod App
