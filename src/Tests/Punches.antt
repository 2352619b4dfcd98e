-- ===== src/Tests/Punches.antt =====
-- A file system that zeroes what it is asked to deallocate, and a handle with free extents.
use turndb.Shared.{
  ℕ, zero, suc, ◌+◌, ◌≤◌, ◌≡◌, refl, ap, ◌⊎◌, inl, inr, true, false, none, [], ◌∷◌, length, take,
  drop, replicate, length-replicate, Bytes, arith,
}
use turndb.ReadLimits.{default_limits}
use turndb.Container.Superblock.{empty}
use turndb.Container.Directory.Ranges.{member_ranges, free_ranges}
use turndb.Container.Directory.Decode.{read_exact_at}
use turndb.Container.State.{Container}
use turndb.Container.Punch.{Puncher, punch_free_extents}
use turndb.Container.Punch.Members.{SameIn, punch_free_extents-members}
use turndb.Tests.Commits.{name, member}
use turndb.Tests.Disks.{memory_disk}

unfoldable zeroed : Bytes → ℕ → ℕ → Bytes
zeroed [] off len = []
zeroed (b ∷ file) zero zero = b ∷ file
zeroed (b ∷ file) zero (suc len) = 0 ∷ zeroed file zero len
zeroed (b ∷ file) (suc off) len = b ∷ zeroed file off len

length-zeroed : (file : Bytes) (off len : ℕ) → length (zeroed file off len) ≡ length file
unfolding zeroed
length-zeroed [] off len = refl
length-zeroed (b ∷ file) zero zero = refl
length-zeroed (b ∷ file) zero (suc len) = ap suc (length-zeroed file zero len)
length-zeroed (b ∷ file) (suc off) len = ap suc (length-zeroed file off len)

zeroed-keeps :
    (file : Bytes) (off len from size : ℕ)
    → (from + size ≤ off) ⊎ (off + len ≤ from)
    → take size (drop from (zeroed file off len)) ≡ take size (drop from file)
unfolding zeroed
zeroed-keeps [] off len from size h = refl
zeroed-keeps (b ∷ file) zero zero from size h = refl
zeroed-keeps (b ∷ file) zero (suc len) zero zero h = refl
zeroed-keeps (b ∷ file) zero (suc len) zero (suc size) (inl h) = absurd (omega (arith, h))
zeroed-keeps (b ∷ file) zero (suc len) zero (suc size) (inr h) = absurd (omega (arith, h))
zeroed-keeps (b ∷ file) zero (suc len) (suc from) size (inl h) = absurd (omega (arith, h))
zeroed-keeps (b ∷ file) zero (suc len) (suc from) size (inr h) =
    zeroed-keeps file zero len from size (inr (omega (arith, h)))
zeroed-keeps (b ∷ file) (suc off) len zero zero h = refl
zeroed-keeps (b ∷ file) (suc off) len zero (suc size) (inl h) =
    ap (b ∷◌) (zeroed-keeps file off len zero size (inl (omega (arith, h))))
zeroed-keeps (b ∷ file) (suc off) len zero (suc size) (inr h) = absurd (omega (arith, h))
zeroed-keeps (b ∷ file) (suc off) len (suc from) size (inl h) =
    zeroed-keeps file off len from size (inl (omega (arith, h)))
zeroed-keeps (b ∷ file) (suc off) len (suc from) size (inr h) =
    zeroed-keeps file off len from size (inr (omega (arith, h)))

read-zeroed :
    (file : Bytes) (off len from size : ℕ)
    → (from + size ≤ off) ⊎ (off + len ≤ from)
    → from + size ≤ length file
    → read_exact_at (zeroed file off len) size from ≡ read_exact_at file size from
unfolding read_exact_at
read-zeroed file off len from size h k =
    rw (length-zeroed file off len, zeroed-keeps file off len from size h) refl

abbrev zeroing : Puncher
zeroing = record {
  punch_hole = λ file off len. (true, zeroed file off len);
  punch_length = length-zeroed;
  punch_keeps = read-zeroed;
}

abbrev five_blocks : Bytes
five_blocks = replicate 20480 7

-- A member in the third block, free extents before and behind it, and a recent one.
abbrev punchable : Container
punchable = record {
  f = 1;
  file = five_blocks;
  dir = (name, member) ∷ [];
  free = (12288, 8192, 0) ∷ (8195, 100, 0) ∷ (8300, 10, 5) ∷ [];
  sb = empty;
  tail = 20480;
  slot = 0;
  staged = false;
  open_member = none;
  next_member_token = 0;
  poisoned = false;
  failed_publication_selected = none;
  publication_acknowledged = true;
  read_limits = default_limits;
}

punch_free_extents-members_example :
    SameIn five_blocks (punch_free_extents zeroing memory_disk 0 punchable).1.file ((8192, 3) ∷ [])
unfolding member_ranges free_ranges
punch_free_extents-members_example =
    punch_free_extents-members zeroing memory_disk 0 punchable
      (
        (inl (omega arith), (inl (omega arith), (inl (omega arith), tt))),
        ((inr (omega arith), (inr (omega arith), tt)), ((inl (omega arith), tt), (tt, tt))),
      )
      (omega (arith, length-replicate {A = ℕ} 20480 7), tt)
