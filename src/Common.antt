-- ===== src/Common.antt =====
-- The arithmetic that contracts share: contracts/common/src.
pub mod WeightedRate
pub mod Scaling
