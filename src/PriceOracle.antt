-- ===== src/PriceOracle.antt =====
-- The price oracle contract: contracts/price_oracle/src/lib.rs.
pub mod Contract
pub mod Prices
mod Tests
