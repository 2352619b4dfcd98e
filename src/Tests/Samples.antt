-- ===== src/Tests/Samples.antt =====
-- Concrete stand-ins for the digests and the file system.
use turndb.Shared.{
  ℕ, zero, suc, ◌+◌, ◌%◌, ◌^◌, refl, true, [], ◌∷◌, length, replicate, length-replicate, take, All,
  Bytes, arith,
}
use turndb.Shared.Bits.{IsByte}
use turndb.Shared.Digests.{Digests}
use turndb.Wal.Writer.{Platform, overwrite}

abbrev pub sum : Bytes → ℕ
sum [] = 0
sum (b ∷ bs) = b + sum bs

pub All-replicate : (n b : ℕ) → IsByte b → All IsByte (replicate n b)
All-replicate zero b h = tt
All-replicate (suc n) b h = (h, All-replicate n b h)

-- The length of the input in 32 equal bytes, and the sum of its bytes.
abbrev pub toy : Digests
toy = record {
  blake3 = λ b. replicate 32 (length b % 256);
  length-blake3 = λ b. length-replicate 32 (length b % 256);
  blake3-IsByte = λ b. All-replicate 32 (length b % 256) (omega arith);
  crc32 = λ b. sum b % 2 ^ 32;
  crc32-lt = λ b. omega arith;
}

-- A file in memory, on which every operation succeeds, and room for every buffer.
abbrev pub memory : Platform
memory = record {
  write_all_at = λ file written off. (true, overwrite file written off);
  write_done = λ file written off h. refl;
  set_len = λ file len. (true, take len file);
  set_len_done = λ file len h k. refl;
  sync_file = λ file. true;
  try_reserve = λ buf additional. true;
}
