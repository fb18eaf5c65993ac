-- ===== src/Dict/Ids.antt =====
-- t
