-- ===== src/Program.antt =====
-- src/part/content.rs and src/part/mod.rs: the programs of a part's content columns.
mod Defs
pub mod RoundTrip
unfoldable pub use Defs.*
