-- ===== src/Stats.antt =====
-- The statistics of `ctfuzz/afl/afl-fuzz-stats.c`.
pub mod File
pub mod Write
pub mod Load
pub mod Resume
pub mod Plot
pub mod Queue
pub mod Setup
pub mod Screen
pub mod Banner
pub mod Draw
pub mod Init
mod Tests
mod Runs
