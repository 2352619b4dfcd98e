-- ===== src/Wal/Codec.antt =====
-- The payload of a record frame: `encode_record` and `decode_record` of src/store/wal.rs.
pub mod Fields
pub mod FieldLaws
pub mod Payload
pub mod ContentLaws
pub mod RoundTrip
