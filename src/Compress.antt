-- ===== src/Compress.antt =====
-- The directory compress/.
pub mod Zlib
