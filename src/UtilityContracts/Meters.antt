-- ===== src/UtilityContracts/Meters.antt =====
-- Meters of lib.rs.
pub mod Types
pub mod Helpers
pub mod Registration
pub mod Payouts
pub mod Claims
pub mod Funds
pub mod Usage
pub mod Frame
pub mod Shares
pub mod Payments
pub mod Pools
pub mod Effects
pub mod Funding
pub mod Settings
pub mod Reports
pub mod History
pub mod Replay
pub mod Limits
pub mod Bills
mod Run
mod Tests
