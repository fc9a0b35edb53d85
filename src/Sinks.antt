-- ===== src/Sinks.antt =====
-- The directory sinks/: the shard writer, eviction, and the sinks.
pub mod EvictionRunner
pub mod ShardWriter
pub mod EffectiveSink
