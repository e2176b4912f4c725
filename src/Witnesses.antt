-- ===== src/Witnesses.antt =====
-- Concrete inputs of the theorems.
mod Data
mod Solver
mod Search
mod Client
mod Updates
mod Start
mod Build
mod Hardware
mod Sweep
mod Measured
mod Metrics
