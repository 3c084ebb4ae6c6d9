-- ===== src/Etl.antt =====
-- main/src/etl.rs: the extraction pipelines.
pub mod Types
pub mod Scan
pub mod Backfill
pub mod Tail
pub mod Transform
pub mod Load
pub mod Poll
pub mod Livescan
pub mod Walk
pub mod Pipeline
pub mod Runs
