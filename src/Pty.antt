-- ===== src/Pty.antt =====
-- The pseudo-terminals of server/src/handlers/process.rs.
pub mod Os
pub mod Child
pub mod State
pub mod Start
pub mod Read
pub mod Exited
pub mod Kept
pub mod Steps
pub mod Control
