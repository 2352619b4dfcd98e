-- ===== src/IdCol.antt =====
-- src/part/idcol.rs: the sorted ids of a part, front-coded with a restart point every 16 ids.
mod Defs
pub mod Stream
pub mod Access
pub mod Order
pub mod Search
pub mod Lookup
pub mod Bound
pub mod Build
pub mod Validate
pub mod Cursor
unfoldable pub use Defs.*
