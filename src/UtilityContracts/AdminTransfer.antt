-- ===== src/UtilityContracts/AdminTransfer.antt =====
-- The transfer of the contract's administration, lib.rs.
pub mod Protocol
pub mod Handover
mod Tests
