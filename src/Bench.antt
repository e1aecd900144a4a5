-- ===== src/Bench.antt =====
-- src/bench.rs: the measurements of the benchmark program.
pub mod Frequency
pub mod PerThread
pub mod CrossThread
pub mod Sources
pub mod Skew
pub mod Results
