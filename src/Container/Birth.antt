-- ===== src/Container/Birth.antt =====
-- `empty_birth_image`: the file of a container that was just created.
use turndb.Shared.{
  ℕ, ◌+◌, ◌≡◌, refl, sym, ap, ◌∙◌, append-nil, take, false, ltb, [], ◌++◌, length, length-append,
  length-replicate, replicate, take-append_eq, drop-append_eq, none, Bytes, ok, arith,
}
use turndb.Shared.Digests.{Digests}
use turndb.ReadLimits.{ReadLimits}
use turndb.Block.Codec.{Zstd}
use turndb.Container.Superblock.{
  slot_len, region_start, empty, encode, decode, validate_semantics, is_empty_birth_superblock,
  select_superblock, live,
}
use turndb.Container.Slots.{IsTyped, decode-encode}
use turndb.Container.Directory.Decode.{read_exact_at, read_directory}
use turndb.Container.State.{selected_state}
use turndb.Container.Commit.Files.{length-encode, HasSlots}

abbrev pub blank_slot : Bytes
blank_slot = replicate slot_len 0

unfoldable pub empty_birth_image : Digests → Bytes
empty_birth_image d = encode d empty ++ blank_slot

empty-IsTyped : IsTyped empty
empty-IsTyped = record {
  seq = omega arith;
  dir_off = omega arith;
  dir_stored = omega arith;
  dir_raw = omega arith;
  n_entries = omega arith;
  dir_xsum = omega arith;
  tail = omega arith;
}

empty-validates : validate_semantics empty ≡ ok tt
unfolding validate_semantics is_empty_birth_superblock
empty-validates = refl

two_slots : (a b : Bytes) → length a ≡ slot_len → length b ≡ slot_len → HasSlots (a ++ b) (a, b)
unfolding read_exact_at
two_slots a b h k =
    let size : length (a ++ b) ≡ region_start = omega (arith, h, k, length-append {0} a b) in
    let fits : ltb (length (a ++ b)) (0 + slot_len) ≡ false = ground arith in
    let fits' : ltb (length (a ++ b)) (slot_len + slot_len) ≡ false = ground arith in
    (
      rw fits (ap (λ (t : Bytes). ok t) (take-append_eq a b slot_len h)),
      rw (fits', drop-append_eq a b slot_len h)
          (ap (λ (t : Bytes). ok t)
            (ap (λ (t : Bytes). take slot_len t) (sym (append-nil b))
              ∙ take-append_eq b [] slot_len k)),
    )

birth-selected :
    (d : Digests) (z : Zstd) (read_limits : ReadLimits) (a b : Bytes)
    → length (a ++ b) ≡ region_start
    → HasSlots (a ++ b) (a, b)
    → live d (a, b) ≡ ok (empty, 0)
    → selected_state d z (a ++ b) read_limits ≡ ok (empty, 0, ([], []))
unfolding selected_state read_directory is_empty_birth_superblock
birth-selected d z read_limits a b size h lives =
    let tall : ltb (length (a ++ b)) region_start ≡ false = ground arith in
    rw (tall, h.0, h.1, lives, tall) refl

birth-live :
    (d : Digests) (b : Bytes) → decode d b ≡ ok none → live d (encode d empty, b) ≡ ok (empty, 0)
unfolding live select_superblock
birth-live d b blank = rw (decode-encode d empty empty-IsTyped empty-validates, blank) refl

-- A container that was just created opens as the empty one, in the first slot, when the digest does
-- not take a slot of zeros for a superblock.
pub selected_state-empty_birth_image :
    (d : Digests) (z : Zstd) (read_limits : ReadLimits)
    → decode d blank_slot ≡ ok none
    → selected_state d z (empty_birth_image d) read_limits ≡ ok (empty, 0, ([], []))
unfolding empty_birth_image
selected_state-empty_birth_image d z read_limits blank =
    let first = length-encode d empty in
    let second = length-replicate {A = ℕ} slot_len 0 in
    birth-selected d z read_limits (encode d empty) blank_slot
      (omega (arith, first, second, length-append {0} (encode d empty) blank_slot))
      (two_slots (encode d empty) blank_slot first second) (birth-live d blank_slot blank)
