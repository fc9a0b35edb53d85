-- ===== src/Mmap.antt =====
-- The directory mmap/: mapped regions, framed append buffers, and the store that rotates them.
pub mod Frame
pub mod Buffer
pub mod Store
pub mod Region
