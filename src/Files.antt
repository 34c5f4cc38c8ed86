-- ===== src/Files.antt =====
-- server/src/handlers/io.rs: the contents of files, their names, and copies.
pub mod Os
pub mod Contents
pub mod Times
pub mod Entries
pub mod Copy
