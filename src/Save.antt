-- ===== src/Save.antt =====
-- `save_if_interesting` of `ctfuzz/afl/afl-fuzz-bitmap.c` and what it calls.
pub mod Outcome
pub mod Env
pub mod Keeps
pub mod Path
pub mod Describe
pub mod Queue
pub mod Judge
mod Tests
