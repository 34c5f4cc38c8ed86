-- ===== src/Dirs.antt =====
-- server/src/handlers/dir.rs: listing, creating and removing directories.
pub mod Sort
pub mod Attributes
pub mod Listing
pub mod Create
