-- ===== src/Tests/Containers.antt =====
-- A container at birth, and the publication of its first commit.
use turndb.Shared.{◌<◌, ◌+◌, ◌≤◌, ◌%◌, ◌-◌, ◌≡◌, refl, [], none, some, ok, arith}
use turndb.Container.Superblock.{
  align, align_up, Superblock, empty, encode, decode, validate_semantics, is_empty_birth_superblock,
  Slots, live, select_superblock,
}
use turndb.Container.Slots.{IsTyped, decode-encode}
use turndb.Container.Align.{align_up-next}
use turndb.Container.Publication.{write_slot, flip, flip-atomic}
use turndb.Tests.Samples.{toy}

-- A directory of 10 bytes on the first page behind the slots.
abbrev next : Superblock
next = record {
  seq = 1;
  dir_off = 8192;
  dir_stored = 10;
  dir_raw = 10;
  n_entries = 1;
  dir_xsum = 77;
  tail = 8202;
  dir_codec = 0;
}

empty-IsTyped : IsTyped empty
empty-IsTyped = record {
  seq = omega arith;
  dir_off = omega arith;
  dir_stored = omega arith;
  dir_raw = omega arith;
  n_entries = omega arith;
  dir_xsum = omega arith;
  tail = omega arith;
}

next-IsTyped : IsTyped next
next-IsTyped = record {
  seq = omega arith;
  dir_off = omega arith;
  dir_stored = omega arith;
  dir_raw = omega arith;
  n_entries = omega arith;
  dir_xsum = omega arith;
  tail = omega arith;
}

empty_sound : validate_semantics empty ≡ ok tt
unfolding validate_semantics is_empty_birth_superblock
empty_sound = refl

next_sound : validate_semantics next ≡ ok tt
unfolding validate_semantics
next_sound = refl

decode-encode_example : decode toy (encode toy next) ≡ ok (some next)
decode-encode_example = decode-encode toy next next-IsTyped next_sound

-- A slot that holds no superblock.
blank : decode toy [] ≡ ok none
unfolding decode
blank = refl

abbrev birth : Slots
birth = (encode toy empty, [])

birth-live : live toy birth ≡ ok (empty, 0)
unfolding live select_superblock
birth-live = rw (decode-encode toy empty empty-IsTyped empty_sound, blank) refl

flip-atomic_example :
    (live toy (flip toy next (birth, 0)) ≡ ok (next, 1 - 0))
    × (live toy (write_slot (1 - 0) [] birth) ≡ ok (empty, 0))
flip-atomic_example =
    flip-atomic toy birth empty next 0 [] birth-live next-IsTyped next_sound (omega arith) blank

aligned : align_up 5000 ≡ ok 8192
unfolding align_up
aligned = refl

align_up-next_example : (5000 ≤ 8192) × (8192 < 5000 + align) × (8192 % align ≡ 0)
align_up-next_example = align_up-next 5000 8192 aligned
