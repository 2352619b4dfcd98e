-- ===== src/Shared/Digests.antt =====
-- The digests that the code takes from other crates: `blake3::hash` and `crc32fast::hash`.
-- The code relies on their lengths, and on equal input giving equal output.
use Prim.Native.Nat.{ℕ, ◌^◌, ◌<◌}
use mathlib.Core.Path.{◌≡◌}
use turndb.Shared.Lists.{length, All}
use turndb.Shared.Bits.{IsByte}
use turndb.Shared.Strings.{Bytes}

pub record Digests : Type 0 where
  pub blake3 : Bytes → Bytes
  pub length-blake3 : (b : Bytes) → length (blake3 b) ≡ 32
  pub blake3-IsByte : (b : Bytes) → All IsByte (blake3 b)
  pub crc32 : Bytes → ℕ
  pub crc32-lt : (b : Bytes) → crc32 b < 2 ^ 32
