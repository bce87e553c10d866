-- ===== src/Mock.antt =====
-- The program silvus-mock, a radio that is simulated: its configuration, the radio's state and its
-- queue of commands, and the commands that its servers offer.
pub mod Config
pub mod Radio
pub mod Queue
pub mod Commands
pub mod Maintenance
pub mod Direct
pub mod Samples
pub mod Tests
