-- ===== src/Container/Commit/Published.antt =====
-- Opening the file of a container after a commit.
use turndb.Shared.{
  ℕ, ◌+◌, ◌-◌, ◌*◌, ◌%◌, ◌^◌, ◌≤◌, ◌<◌, ◌≡◌, refl, ap, ◌∙◌, true, false, ◌==◌, ltb, ==_refl, length,
  All, none, Bytes, ok, OnOk, >>=-OnOk, OnOk-ok, bail_if-OnOk, arith,
}
use turndb.Shared.Digests.{Digests}
use turndb.ReadLimits.{ReadLimits, admit, admit_stored, admit_decoded, admit_directory_entries}
use turndb.Block.Codec
use turndb.Block.Codec.{Zstd}
use turndb.Container.Superblock.{
  Superblock, region_start, slot_len, align, encode, validate_semantics, Slots, live,
}
use turndb.Container.Slots.{IsTyped}
use turndb.Container.Publication.{live-flip}
use turndb.Container.Disk.{Disk}
use turndb.Container.Disk.Reads.{read-write, read-write_behind, length-write}
use turndb.Container.Superblock.{max_dir_raw}
use turndb.Container.Directory.Encode.{Members, directory_bytes}
use turndb.Container.Directory.WellFormed.{IsSummed, IsDirectory}
use turndb.Container.Directory.Written.{parse_directory-directory_bytes}
use turndb.Container.Superblock.{max_members, max_dir_stored}
use turndb.Container.Directory.Decode.{
  Directory, parse_directory, read_exact_at, admit_declaration, read_published, read_directory,
}
use turndb.Container.State.{selected_state}
use turndb.Container.Front.{live-behind}
use turndb.Container.Commit.{Prepared}
use turndb.Container.Commit.Files.{HasSlots, length-encode, slots_behind, slots_written, slot_cases}

-- The superblock that a commit of `n` members publishes.
abbrev pub superblock_of : Digests → Prepared → ℕ → Superblock
superblock_of d p n = record {
  seq = p.seq;
  dir_off = p.dir_off;
  dir_stored = length p.stored;
  dir_raw = length p.payload;
  n_entries = n;
  dir_xsum = d.crc32 p.stored;
  tail = p.dir_off + length p.stored;
  dir_codec = p.codec;
}

-- What `prepare` has established of the next directory.
pub record IsPrepared (z : Zstd) (read_limits : ReadLimits) (dir : Members) (p : Prepared)
    : Type 0 where
  pub payload : p.payload ≡ directory_bytes dir p.next_free
  pub decoded : Codec.decode z p.codec p.stored (length p.payload) none ≡ ok p.payload
  pub codec : p.codec ≤ 1
  pub verbatim : p.codec ≡ 0 → length p.stored ≡ length p.payload
  pub live : (0 < length p.stored) × (0 < length p.payload)
  pub stored :
      (length p.stored ≤ max_dir_stored) × (length p.stored ≤ read_limits.max_stored_frame_bytes)
  pub raw :
      (length p.payload ≤ max_dir_raw) × (length p.payload ≤ read_limits.max_decoded_frame_bytes)
  pub members : (length dir ≤ max_members) × (length dir ≤ read_limits.max_directory_entries)
  pub free : length p.next_free ≤ read_limits.max_directory_entries
  pub aligned : p.dir_off % align ≡ 0
  pub behind : region_start ≤ p.dir_off
  pub fits : p.dir_off + length p.stored < 2 ^ 64
  pub seq : (0 < p.seq) × (p.seq < 2 ^ 64)
  pub directory : IsDirectory p.dir_off p.seq dir p.next_free
  pub summed : All IsSummed dir

-- The slots of a file and its length, when opening it selects a state.
abbrev Slotted : Digests → Bytes → Superblock × ℕ × Directory → Type 0
Slotted d file (sb, slot, directory) =
    (slots : Slots) × HasSlots file slots
    × (live d slots ≡ ok (sb, slot))
    × (region_start ≤ length file)
    × (region_start ≤ sb.tail)

selected-Slotted :
    (d : Digests) (z : Zstd) (file : Bytes) (read_limits : ReadLimits)
    → OnOk (Slotted d file) (selected_state d z file read_limits)
unfolding selected_state
selected-Slotted d z file read_limits = bail_if-OnOk _ (ltb (length file) region_start) _ _ λ tall.
    >>=-OnOk _ (read_exact_at file slot_len 0) _ λ a read_a.
      >>=-OnOk _ (read_exact_at file slot_len slot_len) _ λ b read_b.
        >>=-OnOk _ (live d (a, b)) _ λ (sb, slot) selected.
          bail_if-OnOk _ (ltb (length file) sb.tail) _ _ λ _.
            >>=-OnOk _ (read_directory d z file sb read_limits) _ λ directory _.
              ((a, b), (read_a, read_b), selected, ground arith, live-behind d z a b selected)

module _ (d : Digests) (z : Zstd) (read_limits : ReadLimits) (dir : Members) (p : Prepared) where
  abbrev next : Superblock
  next = superblock_of d p (length dir)

  next-IsTyped : IsPrepared z read_limits dir p → IsTyped next
  next-IsTyped h = record {
    seq = h.seq.1;
    dir_off = omega (arith, h.fits);
    dir_stored = omega (arith, h.stored);
    dir_raw = omega (arith, h.raw);
    n_entries = omega (arith, h.members);
    dir_xsum = d.crc32-lt p.stored;
    tail = h.fits;
  }

  next-validates : IsPrepared z read_limits dir p → validate_semantics next ≡ ok tt
  unfolding validate_semantics
  next-validates h = ground (
    arith, h.seq.0, h.stored.0, h.raw.0, h.members.0, h.codec, h.verbatim, h.fits, h.live.0,
    h.live.1, h.behind, h.aligned,
  )

  next-admitted : IsPrepared z read_limits dir p → admit_declaration read_limits next ≡ ok tt
  unfolding admit_declaration admit admit_stored admit_decoded admit_directory_entries
  next-admitted h = ground (
    arith, h.stored.0, h.stored.1, h.raw.0, h.raw.1, h.members.0, h.members.1, h.fits, h.live.0,
    h.live.1, h.behind, h.aligned,
  )

  read_directory-next :
      (file : Bytes)
      → IsPrepared z read_limits dir p
      → read_exact_at file (length p.stored) p.dir_off ≡ ok p.stored
      → read_directory d z file next read_limits ≡ ok (dir, p.next_free)
  unfolding read_directory read_published
  read_directory-next file h read =
      let later : (p.seq == 0) ≡ false = ground (arith, h.seq) in
      let parsed =
        parse_directory-directory_bytes read_limits next dir p.next_free h.directory h.summed refl
          (omega (arith, h.members)) h.seq.1 h.live.0 h.fits h.free in
      rw (later, next-admitted h, read, ==_refl (d.crc32 p.stored), h.decoded)
        (ap (λ (b : Bytes). parse_directory read_limits next b) h.payload ∙ parsed)

  -- The file after the write of the directory and of the next superblock, both whole.
  pub published-selected :
      (disk : Disk) (file : Bytes) {old : Superblock} {k : ℕ} {directory : Directory}
      → selected_state d z file read_limits ≡ ok (old, k, directory)
      → old.seq < p.seq
      → IsPrepared z read_limits dir p
      → (disk.write_all_at file p.stored p.dir_off).0 ≡ true
      → (disk.write_all_at
          (disk.write_all_at file p.stored p.dir_off).1
          (encode d next)
          ((1 - k) * slot_len)).0
        ≡ true
      → selected_state d z
          (disk.write_all_at
            (disk.write_all_at file p.stored p.dir_off).1
            (encode d next)
            ((1 - k) * slot_len)).1
          read_limits
        ≡ ok (next, 1 - k, (dir, p.next_free))
  unfolding selected_state
  published-selected disk file {old} {k} {directory} selected newer h done flipped =
      let (slots, has, lives, tall, _) =
        OnOk-ok (Slotted d file) _ (selected-Slotted d z file read_limits) selected in
      let first = (disk.write_all_at file p.stored p.dir_off).1 in
      let at : ℕ = (1 - k) * slot_len in
      let second = (disk.write_all_at first (encode d next) at).1 in
      let low : at + slot_len ≤ region_start = omega arith in
      let grown = disk.write_grows file p.stored p.dir_off in
      let more = disk.write_grows first (encode d next) at in
      let same = disk.write_done file p.stored p.dir_off done in
      let long : p.dir_off + length p.stored ≤ length first =
        rw same (length-write file p.stored p.dir_off h.live.0) in
      let has = slots_behind disk file p.stored p.dir_off slots has h.behind tall in
      let has =
        slots_written disk d first next slots k has (omega (arith, tall, grown)) flipped
          (slot_cases disk d slots lives) in
      let lives = live-flip d slots old next k lives (next-IsTyped h) (next-validates h) newer in
      let read : read_exact_at second (length p.stored) p.dir_off ≡ ok p.stored =
        rw (disk.write_done first (encode d next) at flipped) (
          read-write_behind first (encode d next) at (length p.stored) p.dir_off
            (omega (arith, length-encode d next, h.behind, low)) long
          ∙ rw same (read-write file p.stored p.dir_off h.live.0)) in
      let tall : ltb (length second) region_start ≡ false = ground (arith, tall, grown, more) in
      let whole : ltb (length second) (p.dir_off + length p.stored) ≡ false =
        ground (arith, long, more) in
      rw (tall, has.0, has.1, lives, whole, read_directory-next second h read) refl
