-- ===== src/Tests/Blocks.antt =====
-- A stored block of three bytes.
use turndb.Shared.{◌≡◌, refl, false, [], ◌∷◌, take, Bytes, ok, err, arith, block_truncated}
use turndb.Block.{encode_block, verify_frame_bytes}
use turndb.Block.Header.{IsBlock, hdr_of}
use turndb.Block.Frame.{
  frame, length-frame, encode_block-frame, verify_frame_bytes-encode_block, verify_frame_bytes_torn,
}
use turndb.Tests.Samples.{toy}

abbrev three_bytes : Bytes
three_bytes = 1 ∷ 2 ∷ 3 ∷ []

three_bytes-IsBlock : IsBlock 9 0 three_bytes three_bytes false
three_bytes-IsBlock = record {
  id = omega arith;
  known = omega arith;
  live = omega arith;
  fits = omega arith;
  shrunk = omega arith;
  verbatim = refl;
  dictionary = refl;
}

verify_frame_bytes-encode_block_example :
    (b : Bytes) × ((encode_block toy 9 0 three_bytes three_bytes ≡ ok b)
      × (verify_frame_bytes toy b false ≡ ok (hdr_of toy 9 0 three_bytes three_bytes false)))
verify_frame_bytes-encode_block_example =
    verify_frame_bytes-encode_block toy 9 0 three_bytes three_bytes false three_bytes-IsBlock

verify_frame_bytes_torn_example :
    verify_frame_bytes toy (take 20 (frame toy 9 0 three_bytes three_bytes false)) false
    ≡ err block_truncated
verify_frame_bytes_torn_example =
    verify_frame_bytes_torn toy 9 0 three_bytes three_bytes false 20 three_bytes-IsBlock
      (encode_block-frame toy 9 0 three_bytes three_bytes false three_bytes-IsBlock)
      (omega (arith, length-frame toy 9 0 three_bytes three_bytes false))
