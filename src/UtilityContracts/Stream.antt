-- ===== src/UtilityContracts/Stream.antt =====
-- Continuous flows of lib.rs, with the parts of enterprise.rs and temporary_storage.rs that they use.
pub mod Types
pub mod Fleet
pub mod Temporary
pub mod Update
pub mod Creation
pub mod Pausing
pub mod Rates
pub mod Balances
pub mod Config
pub mod Charge
pub mod Fees
pub mod Solvency
pub mod Steps
pub mod Lifecycle
pub mod Slashing
pub mod Administration
pub mod History
mod Tests
