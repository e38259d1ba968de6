-- ===== src/ResourceToken.antt =====
-- The resource token contract: contracts/resource-token/src. Addresses are numbers, since the contract
-- only compares them.
pub mod Storage
pub mod Contract
pub mod Balances
pub mod Supply
pub mod Operators
pub mod Completion
pub mod Migration
pub mod Ledger
mod Tests
