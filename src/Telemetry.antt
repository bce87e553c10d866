-- ===== src/Telemetry.antt =====
-- rcc/internal/telemetry/hub.go: events, buffers and the hub.
pub mod Event
pub mod Buffer
pub mod Hub
pub mod Tests
