-- ===== src/Lib.antt =====
-- turndb, an embedded store of records whose contents are deduplicated pieces. A store is one
-- container file with a write-ahead log beside it: a write goes into the log first, and replay
-- after a crash gives back what was committed.
--
-- The parts of the program and the files that model them (paths from the repository's root):
--   * src/part/idcol.rs, `put_varint` and `get_varint`, with the length functions that
--     src/container.rs and src/store/mod.rs keep of them: Varint.
--   * src/read_limits.rs, the limits on what a persisted length may allocate: ReadLimits.
--   * src/types.rs, values, content programs and records: Types.
--   * src/store/wal.rs, the log. Wal/Codec is the payload of a record frame (`encode_record`,
--     `decode_record` and their fields), Wal/Frame the frame, Wal/Writer the struct `Wal` with
--     `append`, `append_tomb`, `append_batch`, `flush_buf`, `sync` and `truncate` (its path and its
--     scratch buffer are left out), and Wal/Replay the
--     loop of `replay_state_with_limits`. Wal/Log is the abstract log that both are measured
--     against: a list of entries, each one frame or a batch with its marker.
--   * src/container.rs, the store's artifacts in one file: Container. Container/Superblock has
--     `align_up` and `Superblock` with `encode`, `decode`, `validate_semantics` and
--     `select_superblock`, and Container/Publication the slot write of `flip`: its effect on the two
--     slots, when it is whole. Container/Names is `validate_name`. Container/Directory is the member
--     directory: Encode has `encoded_directory_len` and `encode_directory`, Decode `read_directory`
--     down to `get_extents`, Ranges its last check that no byte is claimed twice, and WellFormed says
--     what a directory is. Container/State is the handle and `open_internal`, the file's contents in
--     place of the descriptor; Container/Preflight the checks in front of a change; Container/Staging
--     `put_bytes`, `put_stream`, `append_stream`, `remove` (`remove_member`), the member write with
--     its handle, and `discard_staged`; and Container/Commit `commit`, `commit_staged`, `flip` and
--     `reconcile_after_publication_failure`. Container/Birth is `empty_birth_image`, and
--     Container/Punch `punch_free_extents`. A `BTreeMap` is Shared/Maps, the list of its entries in
--     the order of their keys.
--   * src/fold/codec.rs, the codec of directories and blocks: Block/Codec, over the zstd library.
--   * src/part/idcol.rs, the sorted id column of a part: IdCol. `build`, `get`, `find`,
--     `lower_bound`, `iter`, `validate` and the cursor stand in IdCol/Defs and IdCol/Cursor, the
--     stream that they share in IdCol/Stream.
--   * src/part/bloom.rs, the filter over the piece hashes of a part: Bloom.
--   * src/fold/block.rs, the frame of a block of pieces and the location of a piece: Block. Its two
--     functions `encode` and the one `decode` are `encode_loc`, `encode_block` and `decode_loc`.
--   * src/fold/dedup.rs, the window of pieces that no part holds yet: Dedup. Dedup/Defs is the
--     open-addressed table, Dedup/Probe its probe sequence, and Dedup/Table measures it against a
--     map from hashes to locations.
--   * src/part/cache.rs, the decoded sections that the open parts of a store share: Cache. The size
--     in memory of a `ContentMeta` (src/part/mod.rs) is a parameter, since the compiler chooses it.
--   * src/part/content.rs, `encode_program`, and src/part/mod.rs, `decode_program` with `piece`:
--     Program. The builder's hash map is a function, and the sections `pdict.loc` and `pdict.hash`
--     are their bytes.
-- Tests runs the definitions on concrete input. Shared has the names that all of them use.
--
-- How the code is read:
--   * Bytes are numbers below 256, a slice is a list, and a slice with a cursor is the slice from
--     the cursor on. A u64 or u32 is a native number, with the overflow checks of the code written
--     out; `usize` has 64 bits. A `String` is its UTF-8 bytes.
--   * `anyhow::Result` is Result, with one constructor of Error for each condition that is reported.
--     A method on `&mut self` that may fail is a function of Exec, which keeps the state that an
--     error leaves behind. Messages are left out, and so are allocation failures, but for the one
--     that `append_frame` reports behind a flush. Of what a release build wraps around, `Content::len`
--     and the sums of `punch_free_extents` do so here.
--   * blake3 and crc32fast are the record Digests: functions with the lengths that the code relies
--     on, and the combination of checksums is a function of its own. zstd is the record Zstd: a frame
--     is not empty, and decompresses to what was compressed. The file operations of src/vfs.rs are
--     the record Platform for the log: what a successful call does, and nothing of a failed one, and
--     the answer of `Vec::try_reserve`; and the record Disk for a container, where a failed write also leaves what stands in front of its
--     offset, and never shortens the file. A torn slot is one whose bytes fail the slot's digest.
--   * Opening a container measures its file once, since nothing else writes to it meanwhile, and the
--     test that the path still names the open file is an answer of Disk.
--
-- Loops. `put_varint` recurs on the accessibility of `<`, and `get_varint` has its ten rounds.
-- `scan`, the loop of replay, runs on fuel: `replay_file` gives one round for each byte of the file
-- and one more, and every round but the last takes 17 bytes at least. Wal/Replay/Runs has the loop
-- without fuel, as a relation.
-- `search_groups`, the binary search of the id column, has a round for each restart point, and each
-- round drops one at least. `seek`, the probe of the dedup table, has a round for each slot, which
-- reaches every slot, and a table that is not full has an empty one. `power_from` has a round for
-- each power of two below 2^64. `drain` calls the cursor once more than there are ids.
-- `evict` has a round for each entry of the cache, and each round removes one. `write_stream` has a
-- round for each byte of the stream and one more, and each round takes a byte at least.
--
-- Not modelled: opening and creating files, the lock of a container's writer, reading its members,
-- punching holes into them, verifying and reclaiming it, the other sections of a part, the
-- segments of the fold, carving, merging, scanning and the query layer; and src/vfs.rs,
-- src/sys.rs, the command line and the bindings, which are calls of the platform and of other
-- packages.
pub mod Shared
pub mod Varint
pub mod ReadLimits
pub mod Types
pub mod Wal
pub mod IdCol
pub mod Bloom
pub mod Block
pub mod Dedup
pub mod Cache
pub mod Program
pub mod Container
pub mod Tests
