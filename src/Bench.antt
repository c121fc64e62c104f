-- ===== src/Bench.antt =====
-- src/openwhisk/openwhisk.h and src/openwhisk/openwhisk.cc: the configuration of the benchmark, the names of
-- the functions that it runs, and its runs.
pub mod Defs
pub mod Revisions
pub mod Rounds
pub mod Pool
pub mod Reading
pub mod Prompt
pub mod Started
mod Examples
