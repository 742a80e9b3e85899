-- ===== src/Extract.antt =====
-- The extraction of features.
pub mod Strings
