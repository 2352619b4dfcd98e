-- ===== src/Tests/Directories.antt =====
-- A directory of one member and one free extent, written and read.
use turndb.Shared.{
  ℕ, ◌≤◌, ◌<◌, ◌≡◌, refl, [], ◌∷◌, List, length, none, inl, Bytes, bytes_eq, ok, arith,
}
use turndb.ReadLimits.{default_limits}
use turndb.Varint.{varint_len}
use turndb.Block.Codec
use turndb.Block.Codec.{codec_zstd, decode-encode_payload}
use turndb.Container.Superblock.{Superblock}
use turndb.Container.Superblock.{max_dir_raw}
use turndb.Container.Directory.Encode.{
  Members, FreeExtent, directory_bytes, encode_directory, encoded_directory_len,
}
use turndb.Container.Directory.Ranges.{member_ranges, free_ranges}
use turndb.Container.Directory.Decode.{parse_directory}
use turndb.Container.Directory.WellFormed.{IsInside, IsDirectory}
use turndb.Container.Directory.Written.{parse_directory-directory_bytes}
use turndb.Container.Directory.Accepted.{parse_directory-IsDirectory}
use turndb.Container.Directory.EncodedLength.{encode_directory-length}
use turndb.Tests.Disks.{is_zeros, squeeze, small_zstd}
use turndb.Tests.Commits.{name, member, name-valid, name-text}

abbrev zeros : Bytes
zeros = 0 ∷ 0 ∷ 0 ∷ []

squeezed : Codec.encode small_zstd zeros none 3 ≡ ok (codec_zstd, 0 ∷ [])
unfolding Codec.encode squeeze is_zeros bytes_eq
squeezed = refl

decode-encode_payload_example :
    (Codec.decode small_zstd codec_zstd (0 ∷ []) 3 none ≡ ok zeros)
    × (1 ≤ 3)
    × (0 < 3 → 0 < 1)
    × (codec_zstd ≤ 1)
    × (codec_zstd ≡ 0 → length {A = ℕ} (0 ∷ []) ≡ length zeros)
decode-encode_payload_example = decode-encode_payload small_zstd zeros none 3 squeezed

abbrev dir : Members
dir = (name, member) ∷ []

abbrev free : List FreeExtent
free = (12_288, 10, 1) ∷ []

abbrev sb : Superblock
sb = record {
  seq = 1;
  dir_off = 16_384;
  dir_stored = 20;
  dir_raw = 20;
  n_entries = 1;
  dir_xsum = 0;
  tail = 16_404;
  dir_codec = 0;
}

within : IsInside 16_384 (8192, 3)
within = record {
  behind_slots = omega arith;
  aligned = refl;
  inside = omega arith;
  live = omega arith;
}

free_within : IsInside 16_384 (12_288, 10)
free_within = record {
  behind_slots = omega arith;
  aligned = refl;
  inside = omega arith;
  live = omega arith;
}

dir-IsDirectory : IsDirectory 16_384 1 dir free
unfolding member_ranges free_ranges
dir-IsDirectory = record {
  members = (
    record {
      valid = name-valid;
      text = name-text;
      member = record { few = omega arith; inside = (within, tt); len = refl; fits = omega arith };
    },
    tt,
  );
  ascending = (refl, tt);
  freed = (record { inside = free_within; freed = omega arith }, tt);
  few = omega arith;
  apart = ((inl (omega arith), tt), (tt, tt));
}

parse_directory-directory_bytes_example :
    parse_directory default_limits sb (directory_bytes dir free) ≡ ok (dir, free)
parse_directory-directory_bytes_example =
    parse_directory-directory_bytes default_limits sb dir free dir-IsDirectory (omega arith, tt)
      refl (omega arith) (omega arith) (omega arith) (omega arith) (omega arith)

parse_directory-IsDirectory_example : IsDirectory 16_384 1 dir free × (length dir ≡ sb.n_entries)
parse_directory-IsDirectory_example =
    parse_directory-IsDirectory default_limits sb (directory_bytes dir free) (
      parse_directory-directory_bytes default_limits sb dir free dir-IsDirectory (omega arith, tt)
        refl (omega arith) (omega arith) (omega arith) (omega arith) (omega arith))

encoded : encode_directory dir free ≡ ok (directory_bytes dir free)
unfolding encode_directory encoded_directory_len varint_len
encoded = refl

encode_directory-length_example :
    (encoded_directory_len dir free ≡ ok (length (directory_bytes dir free)))
    × (length (directory_bytes dir free) ≤ max_dir_raw)
encode_directory-length_example =
    encode_directory-length dir free (omega arith) (omega arith)
      ((omega arith, omega arith, ((omega arith, omega arith), tt)), tt)
      ((omega arith, omega arith, omega arith), tt) encoded
