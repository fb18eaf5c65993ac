-- ===== src/Endian/Examples.antt =====
-- A number with eight different bytes.
