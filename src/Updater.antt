-- ===== src/Updater.antt =====
-- The updates of the solver binary and of the miner itself (src/dexbtx_miner/solver_updater.py,
-- src/dexbtx_miner/wrapper_updater.py).
pub mod Manifest
pub mod Solver
pub mod Wrapper
