-- ===== src/Context.antt =====
-- The directory context/: the thread pool, the strand, and the singleton that owns the pool.
pub mod Strand
pub mod ThreadPool
pub mod Singleton
