-- ===== src/Types.antt =====
-- src/types.rs: the vocabulary of records that every layer shares.
mod Defs
mod Validation
mod Sorting
pub use Defs.{
  Value, str, int, float, bool, uint, bytes, timestamp_ns, null, ContentOp, lit, piece, Content,
  Record, is_empty_name, is_zero_piece,
}
unfoldable pub use Defs.{
  type_tag, op_len, content_len, validate_contents, validate_contents_from, any_zero_piece,
  contains_name, sort_contents, insert_content, new_record, content, find_content,
}
pub use Validation.*
pub use Sorting.*
