-- ===== src/Cli.antt =====
-- The host's command-line client, and the client together with the firmware behind its link.
pub mod Tests
pub mod Session
pub mod Commands
pub mod Loopback
