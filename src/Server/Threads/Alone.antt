-- ===== src/Server/Threads/Alone.antt =====
-- A thread with no other beside it does what the handlers of Server.Dispatch do.
