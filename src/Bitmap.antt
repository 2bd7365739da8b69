-- ===== src/Bitmap.antt =====
-- The coverage bitmap: `ctfuzz/afl/afl-fuzz-bitmap.c`.
pub mod Count
pub mod Classes
pub mod Novelty
pub mod File
pub mod Minimize
mod Tests
