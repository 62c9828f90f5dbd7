-- ===== src/Archive/Dirs/Errors.antt =====
-- The database never refuses what the guards of the operations on directories let through.
