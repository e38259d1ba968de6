-- ===== src/UtilityContracts/Multisig.antt =====
-- Withdrawals of a provider's earnings that several finance wallets have to approve, of lib.rs.
pub mod Types
pub mod Config
pub mod Requests
pub mod Execution
pub mod Consent
pub mod Numbers
pub mod Effects
pub mod Once
pub mod Payout
pub mod Safety
mod Tests
