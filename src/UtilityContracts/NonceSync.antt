-- ===== src/UtilityContracts/NonceSync.antt =====
-- nonce_sync.rs: the nonces of devices' heartbeats.
pub mod Types
pub mod Manager
pub mod Replay
pub mod Resets
mod Tests
