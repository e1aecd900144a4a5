-- ===== src/Skew.antt =====
-- benches/skew.rs: the program that runs the measurements of src/bench.rs and reports them.
pub mod Args
pub mod Clocks
pub mod Commands
pub mod Program
