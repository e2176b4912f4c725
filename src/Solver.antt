-- ===== src/Solver.antt =====
-- The wrapper around the solver daemon (src/dexbtx_miner/gbt_solve_wrapper.py).
pub mod Env
pub mod Challenge
pub mod Record
pub mod Daemon
pub mod Slice
pub mod Steps
pub mod Shape
