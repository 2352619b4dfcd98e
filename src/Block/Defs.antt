-- ===== src/Block/Defs.antt =====
-- Locations and block frames.
use turndb.Shared.{
  ℕ, ◌+◌, ◌-◌, ◌^◌, Bool, not, ◌==◌, ◌&&◌, ◌||◌, ltb, [], ◌∷◌, ◌++◌, length, take, drop, Bytes,
  bytes_eq, Result, ok, ◌>>=◌, ◌>>◌, bail_if, loc_truncated, block_header_truncated,
  block_tag_mismatch, unknown_block_codec, block_raw_zero, block_stored_over_raw,
  block_stored_differs, block_without_dictionary, block_empty, block_too_large, block_truncated,
  block_checksum,
}
use turndb.Shared.Words.{to_le_bytes, from_le_bytes}
use turndb.Shared.Digests.{Digests}

-- `BLOCK_TAG`, `BLOCK_HDR_LEN` and `BLOCK_XSUM_LEN`
abbrev pub block_tag : ℕ
block_tag = 0xa5

abbrev pub block_hdr_len : ℕ
block_hdr_len = 16

abbrev pub block_xsum_len : ℕ
block_xsum_len = 4

-- `CODEC_STORED` and `CODEC_ZSTD_DICT`; the codec between them is `CODEC_ZSTD`.
abbrev pub codec_stored : ℕ
codec_stored = 0

abbrev pub codec_zstd_dict : ℕ
codec_zstd_dict = 2

pub record Loc : Type 0 where
  pub block_id : ℕ
  pub in_off : ℕ
  pub raw : ℕ

unfoldable pub encode_loc : Loc → Bytes
encode_loc l = to_le_bytes 4 l.block_id ++ (to_le_bytes 4 l.in_off ++ to_le_bytes 4 l.raw)

unfoldable pub decode_loc : Bytes → Result Loc
decode_loc b = do
  bail_if (ltb (length b) 12) loc_truncated
  ok (record {
    block_id = from_le_bytes (take 4 b);
    in_off = from_le_bytes (take 4 (drop 4 b));
    raw = from_le_bytes (take 4 (drop 8 b));
  })

pub record BlockHdr : Type 0 where
  pub block_id : ℕ
  pub codec : ℕ
  pub raw : ℕ
  pub stored : ℕ
  pub r16 : Bytes

-- On 64 bits the sum of a u32 and the overhead is a `usize`.
abbrev pub frame_span_usize : ℕ → ℕ
frame_span_usize stored = block_hdr_len + block_xsum_len + stored

unfoldable pub parse_hdr : Bytes → Bool → Result BlockHdr
parse_hdr b seg_has_dict = do
  bail_if (ltb (length b) block_hdr_len) block_header_truncated
  bail_if (not (bytes_eq (take 1 b) (block_tag ∷ []))) block_tag_mismatch
  let codec = from_le_bytes (take 1 (drop 1 b))
  bail_if (ltb codec_zstd_dict codec) unknown_block_codec
  let raw = from_le_bytes (take 4 (drop 2 b))
  let stored = from_le_bytes (take 4 (drop 6 b))
  bail_if (raw == 0) block_raw_zero
  bail_if (ltb raw stored) block_stored_over_raw
  bail_if (codec == codec_stored && not (raw == stored)) block_stored_differs
  bail_if (codec == codec_zstd_dict && not seg_has_dict) block_without_dictionary
  ok (record {
    block_id = from_le_bytes (take 4 (drop 12 b));
    codec = codec;
    raw = raw;
    stored = stored;
    r16 = take 2 (drop 10 b);
  })

module _ (d : Digests) where
  unfoldable pub xsum : Bytes → Bytes
  xsum frame_prefix = take block_xsum_len (d.blake3 frame_prefix)

  -- What is written before the payload.
  unfoldable pub header : ℕ → ℕ → Bytes → Bytes → Bytes
  header block_id codec raw_block payload =
      block_tag
      ∷ codec
      ∷ (to_le_bytes 4 (length raw_block)
          ++ (to_le_bytes 4 (length payload)
              ++ (take 2 (d.blake3 raw_block) ++ to_le_bytes 4 block_id)))

  unfoldable pub encode_block : ℕ → ℕ → Bytes → Bytes → Result Bytes
  encode_block block_id codec raw_block payload = do
    bail_if (length raw_block == 0) block_empty
    bail_if (ltb (2 ^ 32 - 1) (length raw_block) || ltb (2 ^ 32 - 1) (length payload))
        block_too_large
    let out = header block_id codec raw_block payload ++ payload
    ok (out ++ xsum out)

  unfoldable pub verify_frame_bytes : Bytes → Bool → Result BlockHdr
  verify_frame_bytes frame seg_has_dict = do
    hdr ← parse_hdr frame seg_has_dict
    let end = frame_span_usize hdr.stored - block_xsum_len
    bail_if (ltb (length frame) (frame_span_usize hdr.stored)) block_truncated
    bail_if (not (bytes_eq (xsum (take end frame)) (take block_xsum_len (drop end frame))))
        block_checksum
    ok hdr
