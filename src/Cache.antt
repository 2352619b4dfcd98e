-- ===== src/Cache.antt =====
-- src/part/cache.rs: the decoded sections that the open parts of a store share, within a budget.
mod Defs
pub mod Entries
pub mod Budget
pub mod Forget
unfoldable pub use Defs.*
