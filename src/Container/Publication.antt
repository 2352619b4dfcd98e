-- ===== src/Container/Publication.antt =====
-- `Container::flip`: the next superblock goes into the slot that is not live.
use turndb.Shared.{
  ℕ, ◌-◌, ◌<◌, ◌≡◌, refl, ◌⊎◌, inl, inr, ◌==◌, if◌then◌else◌, Option, none, some, Bytes, ok,
  >>=-eq-ok, arith,
}
use turndb.Shared.Digests.{Digests}
use turndb.Container.Superblock.{
  Superblock, encode, decode, validate_semantics, select_superblock, Slots, live,
}
use turndb.Container.Slots.{IsTyped, decode-encode}

-- The write of one slot; a failed or interrupted write may leave any bytes.
abbrev pub write_slot : ℕ → Bytes → Slots → Slots
write_slot slot bytes (a, b) = if slot == 0 then (bytes, b) else (a, bytes)

select-newer :
    (old sb : Superblock)
    → old.seq < sb.seq
    → (select_superblock (some old) (some sb) ≡ ok (sb, 1))
      × (select_superblock (some sb) (some old) ≡ ok (sb, 0))
unfolding select_superblock
select-newer old sb h = (ground arith, ground arith)

select-inv :
    (x y : Option Superblock) {sb : Superblock} {k : ℕ}
    → select_superblock x y ≡ ok (sb, k)
    → ((k ≡ 0) × (x ≡ some sb)) ⊎ ((k ≡ 1) × (y ≡ some sb))
unfolding select_superblock
select-inv (some x) (some y) h = ground arith
select-inv (some x) none h = ground arith
select-inv none (some y) h = ground arith
select-inv none none h = cc

module _ (d : Digests) where
  -- `flip`, its write whole: the attempted superblock stands in the slot that was not live.
  unfoldable pub flip : Superblock → Slots × ℕ → Slots
  flip sb (slots, slot) = write_slot (1 - slot) (encode d sb) slots

  pub live-inv :
      (a b : Bytes) {sb : Superblock} {k : ℕ}
      → live d (a, b) ≡ ok (sb, k)
      → ((k ≡ 0) × (decode d a ≡ ok (some sb))) ⊎ ((k ≡ 1) × (decode d b ≡ ok (some sb)))
  unfolding live
  live-inv a b h =
      let (x, e, p) = >>=-eq-ok (decode d a) _ h in
      let (y, f, q) = >>=-eq-ok (decode d b) _ p in
      elim (select-inv x y q) [
        | inl (z, same) ↦ inl (z, rw (← same) e)
        | inr (z, same) ↦ inr (z, rw (← same) f)
      ]

  -- A whole write of the slot that is not live.
  pub live-flip :
      (slots : Slots) (old sb : Superblock) (k : ℕ)
      → live d slots ≡ ok (old, k)
      → IsTyped sb
      → validate_semantics sb ≡ ok tt
      → old.seq < sb.seq
      → live d (flip sb (slots, k)) ≡ ok (sb, 1 - k)
  unfolding live flip select_superblock
  live-flip (a, b) old sb k h t v newer = elim (live-inv a b h) [
    | inl (z, e) ↦ rw z (rw (e, decode-encode d sb t v) ((select-newer old sb newer).0))
    | inr (z, e) ↦ rw z (rw (e, decode-encode d sb t v) ((select-newer old sb newer).1))
  ]

  -- Publication is atomic: over slots whose live superblock is `old`, a write of the other slot
  -- that was whole makes the next superblock live, and one that was torn leaves `old` live.
  pub flip-atomic :
      (slots : Slots) (old sb : Superblock) (k : ℕ) (torn : Bytes)
      → live d slots ≡ ok (old, k)
      → IsTyped sb
      → validate_semantics sb ≡ ok tt
      → old.seq < sb.seq
      → decode d torn ≡ ok none
      → (live d (flip sb (slots, k)) ≡ ok (sb, 1 - k))
        × (live d (write_slot (1 - k) torn slots) ≡ ok (old, k))
  unfolding live flip select_superblock
  flip-atomic (a, b) old sb k torn h t v newer lost = (
    live-flip (a, b) old sb k h t v newer,
    elim (live-inv a b h) [
      | inl (z, e) ↦ rw z (rw (e, lost) refl)
      | inr (z, e) ↦ rw z (rw (e, lost) refl)
    ],
  )
