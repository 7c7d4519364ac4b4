-- ===== src/Node.antt =====
-- The node: its command line (node/src/cli.rs and node/src/command.rs) and its service
-- (node/src/service.rs).
pub mod Packages
pub mod Service
pub mod Starts
pub mod Cli
pub mod Command
