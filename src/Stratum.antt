-- ===== src/Stratum.antt =====
-- The Stratum client (src/dexbtx_miner/stratum_client.py).
pub mod Job
pub mod Rpc
pub mod Client
pub mod Notify
pub mod Submit
pub mod Search
pub mod Heal
pub mod Names
pub mod Messages
pub mod Handshake
pub mod Session
pub mod System
pub mod Metrics
