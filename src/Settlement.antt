-- ===== src/Settlement.antt =====
-- The settlement contract: contracts/settlement/src.
pub mod Host
pub mod Fees
pub mod Rates
pub mod Entry
