-- ===== src/Container.antt =====
-- src/container.rs: the store's artifacts in one file, published by two superblock slots.
pub mod Directory
pub mod Names
pub mod Disk
pub mod State
pub mod Preflight
pub mod Front
pub mod Staging
pub mod Commit
pub mod Birth
pub mod Punch
pub mod Superblock
pub mod Slots
pub mod Align
pub mod Publication
