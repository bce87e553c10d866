-- ===== src/Config.antt =====
-- rcc/internal/config.
pub mod BandPlan
pub mod Timing
pub mod Validate
pub mod Load
pub mod Tests
