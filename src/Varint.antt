-- ===== src/Varint.antt =====
-- src/part/idcol.rs, `put_varint` and `get_varint`: canonical unsigned LEB128 on u64.
-- A pair of a slice and a cursor `at` is the slice from the cursor on, and reading returns the rest.
mod Bounds
mod RoundTrip
mod Canonical
pub use Length.{varint_bytes, varint_bytes-length, varint_len-length}
pub use Truncated.*
pub use Bounds.*
pub use RoundTrip.*
pub use Canonical.*
unfoldable pub use Length.{varint_len}
unfoldable pub use Defs.{put_varint, get_varint, get_varint_rounds}
pub use Defs.{varint}
mod Defs
mod Length
mod Truncated
