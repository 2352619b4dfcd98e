-- ===== src/Dedup.antt =====
-- src/fold/dedup.rs: the window of pieces that no published part holds yet, by open addressing.
mod Defs
pub mod Probe
pub mod Slots
pub mod Store
pub mod Insert
pub mod First
pub mod Growth
pub mod Table
pub mod Fresh
unfoldable pub use Defs.*
