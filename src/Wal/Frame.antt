-- ===== src/Wal/Frame.antt =====
-- The frames of the log: `tag(1) | seq(8) | len(4) | payload(len) | crc32(4)`.
use turndb.Shared.{ℕ, ◌+◌, ◌≡◌, Bool, List, ◌∷◌, ◌++◌, length, length-append, Bytes, arith}
use turndb.Shared.Words.{to_le_bytes, length-to_le_bytes}
use turndb.Shared.Digests.{Digests}
use turndb.Types.{Record}

abbrev pub tomb_tag : ℕ
tomb_tag = 0xd1

abbrev pub batch_complete_tag : ℕ
batch_complete_tag = 0xd2

abbrev pub batch_tomb_tag : ℕ
batch_tomb_tag = 0xd3

abbrev pub record_tag : ℕ
record_tag = 0xd4

abbrev pub batch_record_tag : ℕ
batch_record_tag = 0xd5

-- `HDR` and `CRC`.
abbrev pub header_len : ℕ
header_len = 13

abbrev pub crc_len : ℕ
crc_len = 4

-- `Frame`: what replay makes of a committed frame.
pub record Frame : Type 0 where
  pub tomb : Bool
  pub seq : ℕ
  pub entry : Record
  pub novel : List (Bytes × Bytes)

unfoldable pub header : ℕ → ℕ → Bytes → Bytes
header tag seq payload = tag ∷ (to_le_bytes 8 seq ++ to_le_bytes 4 (length payload))

-- The header and the payload, which the checksum covers, and the checksum.
unfoldable pub frame_bytes : Digests → ℕ → ℕ → Bytes → Bytes
frame_bytes d tag seq payload =
    (header tag seq payload ++ payload)
    ++ to_le_bytes 4 (d.crc32 (header tag seq payload ++ payload))

pub length-header : (tag seq : ℕ) (payload : Bytes) → length (header tag seq payload) ≡ 13
unfolding header
length-header tag seq payload = omega (
  arith,
  length-append {0} (to_le_bytes 8 seq) (to_le_bytes 4 (length payload)),
  length-to_le_bytes 8 seq,
  length-to_le_bytes 4 (length payload),
)

pub length-frame_bytes :
    (d : Digests) (tag seq : ℕ) (payload : Bytes)
    → length (frame_bytes d tag seq payload) ≡ length payload + 17
unfolding frame_bytes
length-frame_bytes d tag seq payload =
    let covered = header tag seq payload ++ payload in
    omega (
      arith,
      length-append {0} covered (to_le_bytes 4 (d.crc32 covered)),
      length-append {0} (header tag seq payload) payload,
      length-header tag seq payload,
      length-to_le_bytes 4 (d.crc32 covered),
    )
