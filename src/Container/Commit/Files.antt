-- ===== src/Container/Commit/Files.antt =====
-- The file of a container after the two writes of a commit.
use turndb.Shared.{
  ℕ, ◌-◌, ◌*◌, ◌≤◌, ◌≡◌, sym, ap, ◌∙◌, true, inl, inr, ◌⊎◌, ◌++◌, length, length-append,
  length-replicate, Bytes, ok, arith,
}
use turndb.Shared.Digests.{Digests}
use turndb.Container.Superblock.{
  Superblock, region_start, slot_len, sb_len, padding, body, encode, Slots, live,
}
use turndb.Container.Slots.{digest, length-body, length-digest}
use turndb.Container.Publication.{flip, live-inv}
use turndb.Container.Disk.{Disk, overwrite}
use turndb.Container.Disk.Reads.{read-write, read-write_behind}
use turndb.Container.Directory.Decode.{read_exact_at}
use turndb.Container.Front.{Agree, read_exact_at-Agree}

pub length-encode : (d : Digests) (sb : Superblock) → length (encode d sb) ≡ slot_len
unfolding encode padding
length-encode d sb = omega (
  arith,
  length-append {0} (body sb) (digest d sb ++ padding),
  length-append {0} (digest d sb) padding,
  length-body d sb,
  length-digest d sb,
  length-replicate {A = ℕ} (slot_len - sb_len) 0,
)

-- Both slots of a file.
abbrev pub HasSlots : Bytes → Slots → Type 0
HasSlots file (a, b) =
    (read_exact_at file slot_len 0 ≡ ok a) × (read_exact_at file slot_len slot_len ≡ ok b)

module _ (disk : Disk) where
  -- A write behind the slots leaves them alone.
  pub slots_behind :
      (file written : Bytes) (off : ℕ) (slots : Slots)
      → HasSlots file slots
      → region_start ≤ off
      → region_start ≤ length file
      → HasSlots (disk.write_all_at file written off).1 slots
  slots_behind file written off (a, b) h behind long =
      let g : Agree region_start file (disk.write_all_at file written off).1 = record {
        front = disk.write_keeps file written off region_start behind long;
        long = long;
        long' = omega (arith, long, disk.write_grows file written off);
      } in
      (
        read_exact_at-Agree slot_len 0 g (omega arith) ∙ h.0,
        read_exact_at-Agree slot_len slot_len g (omega arith) ∙ h.1,
      )

  module _ (d : Digests) (file : Bytes) (sb : Superblock) (a b : Bytes) where
    abbrev whole : Bytes
    whole = encode d sb

    to_second :
        HasSlots file (a, b)
        → region_start ≤ length file
        → (disk.write_all_at file whole slot_len).0 ≡ true
        → HasSlots (disk.write_all_at file whole slot_len).1 (a, whole)
    to_second h long done =
        let g : Agree slot_len file (disk.write_all_at file whole slot_len).1 = record {
          front = disk.write_keeps file whole slot_len slot_len (omega arith) (omega arith);
          long = omega arith;
          long' = omega (arith, disk.write_grows file whole slot_len);
        } in
        let size = length-encode d sb in
        let read = read-write file whole slot_len (omega (arith, size)) in
        (
          read_exact_at-Agree slot_len 0 g (omega arith) ∙ h.0,
          rw (disk.write_done file whole slot_len done) (
              ap (λ (n : ℕ). read_exact_at (overwrite file whole slot_len) n slot_len) (sym size)
              ∙ read),
        )

    to_first :
        HasSlots file (a, b)
        → region_start ≤ length file
        → (disk.write_all_at file whole 0).0 ≡ true
        → HasSlots (disk.write_all_at file whole 0).1 (whole, b)
    to_first h long done =
        let size = length-encode d sb in
        let read = read-write file whole 0 (omega (arith, size)) in
        (
          rw (disk.write_done file whole 0 done)
              (ap (λ (n : ℕ). read_exact_at (overwrite file whole 0) n 0) (sym size) ∙ read),
          rw (disk.write_done file whole 0 done) (
              read-write_behind file whole 0 slot_len slot_len (omega (arith, size)) (omega arith)
              ∙ h.1),
        )

  -- The write of a superblock to the slot `1 - k`.
  pub slots_written :
      (d : Digests) (file : Bytes) (sb : Superblock) (slots : Slots) (k : ℕ)
      → HasSlots file slots
      → region_start ≤ length file
      → (disk.write_all_at file (encode d sb) ((1 - k) * slot_len)).0 ≡ true
      → (k ≡ 0) ⊎ (k ≡ 1)
      → HasSlots
          (disk.write_all_at file (encode d sb) ((1 - k) * slot_len)).1
          (flip d sb (slots, k))
  unfolding flip
  slots_written d file sb (a, b) k h long done (inl zero_slot) =
      rw zero_slot (to_second d file sb a b h long (rw zero_slot at done))
  slots_written d file sb (a, b) k h long done (inr one_slot) =
      rw one_slot (to_first d file sb a b h long (rw one_slot at done))

  pub slot_cases :
      (d : Digests) (slots : Slots) {sb : Superblock} {k : ℕ}
      → live d slots ≡ ok (sb, k)
      → (k ≡ 0) ⊎ (k ≡ 1)
  slot_cases d (a, b) h = elim (live-inv d a b h) [ inl (z, _) ↦ inl z | inr (z, _) ↦ inr z ]
