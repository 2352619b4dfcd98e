-- ===== src/Tests.antt =====
-- Runs of the development on concrete input.
mod Samples
mod Codecs
mod Records
mod Logs
mod Writers
mod Appends
mod Containers
mod Ids
mod Filters
mod Windows
mod Caches
mod Blocks
mod Programs
mod Disks
mod Commits
mod Punches
mod Directories
