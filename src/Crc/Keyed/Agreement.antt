-- ===== src/Crc/Keyed/Agreement.antt =====
-- The two programs print the same quotients and remainders.
