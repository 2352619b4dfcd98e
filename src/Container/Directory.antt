-- ===== src/Container/Directory.antt =====
-- src/container.rs: the directory of a container's members and of its free extents, as bytes.
pub mod Encode
pub mod Ranges
pub mod Decode
pub mod WellFormed
pub mod RoundTrip
pub mod Disjoint
pub mod Written
pub mod Accepted
pub mod EncodedLength
