-- ===== src/Command.antt =====
-- rcc/internal/command/orchestrator.go.
pub mod State
pub mod Numbering
pub mod Resolve
pub mod Resolution
pub mod Orchestrator
pub mod Mocks
pub mod Tests
