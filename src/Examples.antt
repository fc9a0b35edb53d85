-- ===== src/Examples.antt =====
-- The directory examples/.
pub mod LogDecoder
