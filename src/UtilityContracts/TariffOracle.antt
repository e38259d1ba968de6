-- ===== src/UtilityContracts/TariffOracle.antt =====
-- tariff_oracle.rs: prices by the hour of the day.
pub mod Types
pub mod Schedules
pub mod Period
pub mod Blended
pub mod History
pub mod Proposals
pub mod Notice
mod Tests
