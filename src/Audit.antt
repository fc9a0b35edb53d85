-- ===== src/Audit.antt =====
-- The directory audit/.
pub mod ShardReader
pub mod ShardDir
