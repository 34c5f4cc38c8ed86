-- ===== src/Tests.antt =====
-- The models at concrete data: test runs, and the theorems at inputs that meet their hypotheses.
mod Frames
mod Requests
mod Orders
mod Processes
mod Lookups
mod Searches
pub mod Stats
mod Watching
mod Commands
mod Directories
mod Terminals
mod Files
mod Copies
