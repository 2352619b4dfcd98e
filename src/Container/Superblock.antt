-- ===== src/Container/Superblock.antt =====
-- The superblock of a container: one published state, and the bytes of its slot.
use turndb.Shared.{
  ℕ, ◌+◌, ◌-◌, ◌*◌, ◌/◌, ◌%◌, ◌^◌, Bool, true, not, ◌==◌, ◌&&◌, ◌||◌, ltb, if◌then◌else◌, [], ◌∷◌,
  ◌++◌, length, take, drop, replicate, Option, none, some, Bytes, bytes_eq, Result, ok, err, ◌>>=◌,
  ◌>>◌, bail_if, alignment_overflow, birth_state_expected, directory_over_ceiling, unknown_codec,
  unequal_directory_lengths, directory_outside_region, identity_unrecognized, unknown_epoch,
  reserved_bits_set, reserved_tail_set, contradictory_superblocks, no_superblock,
}
use turndb.Shared.Words.{to_le_bytes, from_le_bytes}
use turndb.Shared.Digests.{Digests}

-- b"TDBDRFT1"
abbrev pub magic : Bytes
magic = 0x54 ∷ 0x44 ∷ 0x42 ∷ 0x44 ∷ 0x52 ∷ 0x46 ∷ 0x54 ∷ 0x31 ∷ []

abbrev pub container_draft_epoch : ℕ
container_draft_epoch = 1

abbrev pub slot_len : ℕ
slot_len = 4096

abbrev pub region_start : ℕ
region_start = slot_len * 2

-- `SB_LEN`
abbrev pub sb_len : ℕ
sb_len = 56

abbrev pub align : ℕ
align = 4096

abbrev pub max_dir_stored : ℕ
max_dir_stored = 64 * 2 ^ 20

abbrev pub max_dir_raw : ℕ
max_dir_raw = 256 * 2 ^ 20

abbrev pub max_members : ℕ
max_members = 1_000_000

unfoldable pub align_up : ℕ → Result ℕ
align_up x =
    if ltb (2 ^ 64 - 1) (x + (align - 1))
    then err alignment_overflow
    else ok ((x + (align - 1)) / align * align)

pub record Superblock : Type 0 where
  pub seq : ℕ
  pub dir_off : ℕ
  pub dir_stored : ℕ
  pub dir_raw : ℕ
  pub n_entries : ℕ
  pub dir_xsum : ℕ
  pub tail : ℕ
  pub dir_codec : ℕ

abbrev pub empty : Superblock
empty = record {
  seq = 0;
  dir_off = region_start;
  dir_stored = 0;
  dir_raw = 0;
  n_entries = 0;
  dir_xsum = 0;
  tail = region_start;
  dir_codec = 0;
}

unfoldable pub is_empty_birth_superblock : Superblock → Bool
is_empty_birth_superblock sb =
    sb.seq == 0
    && sb.dir_off == region_start
    && sb.dir_stored == 0
    && sb.dir_raw == 0
    && sb.n_entries == 0
    && sb.dir_xsum == 0
    && sb.tail == region_start
    && sb.dir_codec == 0

-- `==` of the derived `PartialEq`.
unfoldable pub superblock_eq : Superblock → Superblock → Bool
superblock_eq a b =
    a.seq == b.seq
    && a.dir_off == b.dir_off
    && a.dir_stored == b.dir_stored
    && a.dir_raw == b.dir_raw
    && a.n_entries == b.n_entries
    && a.dir_xsum == b.dir_xsum
    && a.tail == b.tail
    && a.dir_codec == b.dir_codec

-- The live superblock and the number of its slot.
unfoldable pub select_superblock : Option Superblock → Option Superblock → Result (Superblock × ℕ)
select_superblock (some left) (some right) =
    if left.seq == right.seq && not (superblock_eq left right)
    then err contradictory_superblocks
    else if ltb left.seq right.seq
    then ok (right, 1)
    else ok (left, 0)
select_superblock (some left) none = ok (left, 0)
select_superblock none (some right) = ok (right, 1)
select_superblock none none = err no_superblock

-- A superblock that is not the birth state.
validate_published : Superblock → Result (Unit {0})
validate_published sb = do
  bail_if
      (ltb max_dir_stored sb.dir_stored
        || ltb max_dir_raw sb.dir_raw
        || ltb max_members sb.n_entries)
      directory_over_ceiling
  bail_if (ltb 1 sb.dir_codec) unknown_codec
  bail_if (sb.dir_codec == 0 && not (sb.dir_stored == sb.dir_raw)) unequal_directory_lengths
  bail_if (ltb (2 ^ 64 - 1) (sb.dir_off + sb.dir_stored)) directory_outside_region
  bail_if
      (sb.dir_stored == 0
        || sb.dir_raw == 0
        || ltb sb.dir_off region_start
        || not (sb.dir_off % align == 0)
        || not (sb.dir_off + sb.dir_stored == sb.tail))
      directory_outside_region

unfoldable pub validate_semantics : Superblock → Result (Unit {0})
unfolding validate_published
validate_semantics sb =
    if sb.seq == 0
    then bail_if (not (is_empty_birth_superblock sb)) birth_state_expected
    else validate_published sb

-- `slot[from..to]`
abbrev pub slice : ℕ → ℕ → Bytes → Bytes
slice from to slot = take (to - from) (drop from slot)

unfoldable pub all_zero : Bytes → Bool
all_zero [] = true
all_zero (b ∷ bs) = b == 0 && all_zero bs

-- The zeros behind the defined bytes of a slot.
unfoldable pub padding : Bytes
padding = replicate (slot_len - sb_len) 0

-- The 52 bytes that the digest covers.
unfoldable pub body : Superblock → Bytes
body sb =
    magic
    ++ (to_le_bytes 8 sb.seq
        ++ (to_le_bytes 8 sb.dir_off
            ++ (to_le_bytes 4 sb.dir_stored
                ++ (to_le_bytes 4 sb.dir_raw
                    ++ (to_le_bytes 4 sb.n_entries
                        ++ (to_le_bytes 4 sb.dir_xsum
                            ++ (to_le_bytes 8 sb.tail
                                ++ (sb.dir_codec ∷ container_draft_epoch ∷ 0 ∷ 0 ∷ []))))))))

abbrev pub first : Bytes → ℕ
first [] = 0
first (b ∷ bs) = b

-- `slot[i]`
abbrev pub byte_at : ℕ → Bytes → ℕ
byte_at i slot = first (drop i slot)

unfoldable pub fields_of : Bytes → Superblock
fields_of slot = record {
  seq = from_le_bytes (slice 8 16 slot);
  dir_off = from_le_bytes (slice 16 24 slot);
  dir_stored = from_le_bytes (slice 24 28 slot);
  dir_raw = from_le_bytes (slice 28 32 slot);
  n_entries = from_le_bytes (slice 32 36 slot);
  dir_xsum = from_le_bytes (slice 36 40 slot);
  tail = from_le_bytes (slice 40 48 slot);
  dir_codec = byte_at 48 slot;
}

module _ (d : Digests) where
  unfoldable pub encode : Superblock → Bytes
  encode sb = body sb ++ (take 4 (d.blake3 (body sb)) ++ padding)

  -- What is checked of a slot whose digest holds.
  unfoldable pub decode_authentic : Bytes → Result (Option Superblock)
  decode_authentic slot = do
    bail_if (not (bytes_eq (slice 0 8 slot) magic)) identity_unrecognized
    bail_if (not (byte_at 49 slot == container_draft_epoch)) unknown_epoch
    bail_if (not (bytes_eq (slice 50 52 slot) (0 ∷ 0 ∷ []))) reserved_bits_set
    bail_if (not (all_zero (drop sb_len slot))) reserved_tail_set
    validate_semantics (fields_of slot)
    ok (some (fields_of slot))

  -- `none` is a slot that was torn or never written.
  unfoldable pub decode : Bytes → Result (Option Superblock)
  decode slot =
      if ltb (length slot) sb_len
      then ok none
      else if not (bytes_eq (slice 52 56 slot) (take 4 (d.blake3 (slice 0 52 slot))))
      then ok none
      else decode_authentic slot

-- The two slots of a file, one page each.
abbrev pub Slots : Type 0
Slots = Bytes × Bytes

module _ (d : Digests) where
  -- `Container::open`: the live superblock of the two slots.
  unfoldable pub live : Slots → Result (Superblock × ℕ)
  live (a, b) = do first ← decode d a; second ← decode d b; select_superblock first second
