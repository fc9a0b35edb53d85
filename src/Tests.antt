-- ===== src/Tests.antt =====
-- Runs of the models on small inputs, and the theorems applied to them. No file of the repository is
-- modelled here.
pub mod Values
mod Storage
mod Shards
mod Services
mod System
mod Threads
mod Appending
mod Flushing
mod Decoder
mod Compression
