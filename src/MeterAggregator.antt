-- ===== src/MeterAggregator.antt =====
-- The meter aggregator contract: contracts/meter-aggregator/src.
pub mod Storage
pub mod Contract
pub mod Pruning
pub mod Totals
pub mod History
mod Tests
