-- ===== src/Client/Menu/Period.antt =====
-- The query of a period in the general menu, and what the server makes of it.
