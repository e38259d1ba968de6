-- ===== src/UtilityContracts/VelocityLimit.antt =====
-- velocity_limit.rs: limits on what one stream, and all streams together, may pay out in a day.
pub mod Types
pub mod Checks
pub mod Admission
pub mod Day
pub mod Overrides
mod Tests
