-- ===== src/Block.antt =====
-- src/fold/block.rs: the frame of a block of pieces, and the location of a piece in a block.
pub mod Codec
mod Defs
pub mod Header
pub mod Frame
unfoldable pub use Defs.*
