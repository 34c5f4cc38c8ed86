-- ===== src/Ancestors.antt =====
-- The searches of server/src/handlers/commands.rs in the directories above a path.
pub mod Scan
pub mod Dominating
pub mod Locals
