-- ===== src/Process.antt =====
-- The asynchronous processes of server/src/handlers/process.rs: the process table, its counter, and
-- the handlers `run`, `start`, `write`, `read`, `close_stdin`, `kill`, `status` and `list`. Children,
-- pipes and signals are tokio's and libc's, and enter as a parameter.
pub mod Os
pub mod State
pub mod Run
pub mod Pipes
pub mod Control
pub mod Unknown
pub mod Lifecycle
