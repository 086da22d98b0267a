-- ===== src/Db/Schema/Ready.antt =====
-- What init_db leaves.
