-- ===== src/UtilityContracts.antt =====
-- The utility contract: contracts/utility_contracts/src.
pub mod AdminTransfer
pub mod Errors
pub mod Meters
pub mod Multisig
pub mod NonceSync
pub mod Stream
pub mod TariffOracle
pub mod VelocityLimit
