-- ===== src/Cmd.antt =====
-- The programs of cmd/.
pub mod Cli
pub mod Simulator
pub mod Daemon
