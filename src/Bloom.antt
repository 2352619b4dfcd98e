-- ===== src/Bloom.antt =====
-- src/part/bloom.rs: the filter over the piece hashes of a part.
mod Defs
mod Bits
pub mod Filter
pub mod Encoding
pub mod Validation
unfoldable pub use Defs.*
