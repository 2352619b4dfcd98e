-- ===== src/Container/Directory/Decode.antt =====
-- `read_directory`.
use turndb.Shared.{
  ℕ, zero, suc, ◌+◌, ◌-◌, ◌%◌, ◌^◌, Bool, false, not, ◌==◌, ◌||◌, ◌&&◌, ltb, if◌then◌else◌, List,
  [], ◌∷◌, ◌++◌, length, take, drop, Option, none, some, Bytes, bytes_lt, is_utf8, Result, ok, err,
  ◌>>=◌, ◌>>◌, bail_if, not_utf8, birth_state_expected, empty_declaration, directory_over_ceiling,
  directory_outside_region, directory_checksum, entry_count_differs, directory_truncated,
  member_name_too_long, member_order, extents_over_ceiling, empty_extent, member_length_overflow,
  extent_overflow, extent_outside, duplicate_member, free_over_ceiling, freed_in_future,
  directory_trailing, read_past_end,
}
use turndb.Shared.Words.{from_le_bytes}
use turndb.Shared.Maps.{find, contains, insert}
use turndb.Shared.Digests.{Digests}
use turndb.ReadLimits.{ReadLimits, admit, admit_directory_entries}
use turndb.Varint.{get_varint}
use turndb.Block.Codec
use turndb.Block.Codec.{Zstd}
use turndb.Container.Superblock.{
  max_dir_stored, max_members, max_dir_raw, Superblock, is_empty_birth_superblock, region_start,
  align,
}
use turndb.Container.Names.{max_name, validate_name}
use turndb.Container.Directory.Encode.{
  max_free_extents, max_member_extents, Extent, Member, Members, FreeExtent,
}
use turndb.Container.Directory.Ranges.{check_windows, sort_unstable, content_ranges}

-- `read_exact_at` on a file.
unfoldable pub read_exact_at : Bytes → ℕ → ℕ → Result Bytes
read_exact_at file len off =
    if ltb (length file) (off + len) then err read_past_end else ok (take len (drop off file))

-- `payload.get(at..at + len)`
unfoldable pub take_bytes : Bytes → ℕ → Result (Bytes × Bytes)
take_bytes payload len =
    if ltb (length payload) len
    then err directory_truncated
    else ok (take len payload, drop len payload)

unfoldable pub read_xsum : Bytes → Result (ℕ × Bytes)
read_xsum payload = do (bytes, rest) ← take_bytes payload 4; ok (from_le_bytes bytes, rest)

-- `previous_name.is_some_and(|previous| previous >= name)`
abbrev pub out_of_order : Option Bytes → Bytes → Bool
out_of_order none name = false
out_of_order (some previous) name = not (bytes_lt previous name)

-- `for _ in 0..n_extents`: `len` is the sum so far.
unfoldable pub get_extents : ℕ → ℕ → Bytes → Result (List Extent × ℕ × Bytes)
get_extents zero len payload = ok ([], len, payload)
get_extents (suc n) len payload = do
  (off, payload) ← get_varint payload
  (ext_len, payload) ← get_varint payload
  bail_if (ext_len == 0) empty_extent
  bail_if (ltb (2 ^ 64 - 1) (len + ext_len)) member_length_overflow
  (extents, len, payload) ← get_extents n (len + ext_len) payload
  ok ((off, ext_len) ∷ extents, len, payload)

-- `off < REGION_START || !off.is_multiple_of(ALIGN) || end > sb.dir_off`
abbrev pub is_outside : Superblock → ℕ → ℕ → Bool
is_outside sb off end = ltb off region_start || not (off % align == 0) || ltb sb.dir_off end

unfoldable pub check_extents : Superblock → List Extent → Result (Unit {0})
check_extents sb [] = ok tt
check_extents sb ((off, len) ∷ extents) = do
  bail_if (ltb (2 ^ 64 - 1) (off + len)) extent_overflow
  bail_if (is_outside sb off (off + len)) extent_outside
  check_extents sb extents

unfoldable pub get_name : Option Bytes → Bytes → Result (Bytes × Bytes)
get_name previous payload = do
  (name_len, payload) ← get_varint payload
  bail_if (ltb max_name name_len) member_name_too_long
  (name, payload) ← take_bytes payload name_len
  bail_if (not (is_utf8 name)) not_utf8
  validate_name name
  bail_if (out_of_order previous name) member_order
  ok (name, payload)

unfoldable pub get_member : Superblock → Bytes → Result (Member × Bytes)
get_member sb payload = do
  (n_extents, payload) ← get_varint payload
  bail_if (ltb max_member_extents n_extents) extents_over_ceiling
  (extents, len, payload) ← get_extents n_extents 0 payload
  (xsum, payload) ← read_xsum payload
  check_extents sb extents
  ok (record { extents = extents; len = len; xsum = xsum }, payload)

-- `for _ in 0..n`: `dir` is the map so far.
unfoldable pub get_members :
    Superblock → ℕ → Option Bytes → Members → Bytes → Result (Members × Bytes)
get_members sb zero previous dir payload = ok (dir, payload)
get_members sb (suc n) previous dir payload = do
  (name, payload) ← get_name previous payload
  (m, payload) ← get_member sb payload
  bail_if (contains (find name dir)) duplicate_member
  get_members sb n (some name) (insert name m dir) payload

unfoldable pub get_free : Superblock → ℕ → Bytes → Result (List FreeExtent × Bytes)
get_free sb zero payload = ok ([], payload)
get_free sb (suc n) payload = do
  (off, payload) ← get_varint payload
  (len, payload) ← get_varint payload
  (freed_seq, payload) ← get_varint payload
  bail_if (ltb sb.seq freed_seq) freed_in_future
  bail_if (ltb (2 ^ 64 - 1) (off + len)) extent_overflow
  bail_if (len == 0 || is_outside sb off (off + len)) extent_outside
  (free, payload) ← get_free sb n payload
  ok ((off, len, freed_seq) ∷ free, payload)

abbrev pub Directory : Type 0
Directory = Members × List FreeExtent

-- The decoded payload.
unfoldable pub parse_directory : ReadLimits → Superblock → Bytes → Result Directory
parse_directory read_limits sb payload = do
  (n, payload) ← get_varint payload
  bail_if (not (n == sb.n_entries)) entry_count_differs
  (dir, payload) ← get_members sb n none [] payload
  (n_free, payload) ← get_varint payload
  bail_if (ltb max_free_extents n_free) free_over_ceiling
  admit_directory_entries read_limits n_free
  (free, payload) ← get_free sb n_free payload
  bail_if (not (length payload == 0)) directory_trailing
  check_windows (sort_unstable (content_ranges dir free ++ (sb.dir_off, sb.dir_stored) ∷ []))
  ok (dir, free)

unfoldable pub admit_declaration : ReadLimits → Superblock → Result (Unit {0})
admit_declaration read_limits sb = do
  bail_if (sb.n_entries == 0 && sb.dir_stored == 0) empty_declaration
  bail_if
      (ltb max_dir_stored sb.dir_stored
        || ltb max_dir_raw sb.dir_raw
        || ltb max_members sb.n_entries)
      directory_over_ceiling
  admit read_limits sb.dir_stored sb.dir_raw
  admit_directory_entries read_limits sb.n_entries
  bail_if (ltb (2 ^ 64 - 1) (sb.dir_off + sb.dir_stored)) directory_outside_region
  bail_if
      (sb.dir_stored == 0
        || sb.dir_raw == 0
        || ltb sb.dir_off region_start
        || not (sb.dir_off % align == 0)
        || not (sb.dir_off + sb.dir_stored == sb.tail))
      directory_outside_region

module _ (d : Digests) (z : Zstd) where
  unfoldable pub read_published : Bytes → Superblock → ReadLimits → Result Directory
  read_published file sb read_limits = do
    admit_declaration read_limits sb
    stored ← read_exact_at file sb.dir_stored sb.dir_off
    bail_if (not (d.crc32 stored == sb.dir_xsum)) directory_checksum
    payload ← Codec.decode z sb.dir_codec stored sb.dir_raw none
    parse_directory read_limits sb payload

  unfoldable pub read_directory : Bytes → Superblock → ReadLimits → Result Directory
  read_directory file sb read_limits =
      if sb.seq == 0
      then if is_empty_birth_superblock sb then ok ([], []) else err birth_state_expected
      else read_published file sb read_limits
