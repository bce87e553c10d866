-- ===== src/Api.antt =====
-- rcc/internal/api.
pub mod Errors
pub mod Server
pub mod Routes
pub mod Access
pub mod Ports
pub mod Tests
