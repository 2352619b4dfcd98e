-- ===== src/Dedup/Fresh.antt =====
-- A new table, and a cleared one.
use turndb.Shared.{
  ℕ, zero, suc, ◌+◌, ◌-◌, ◌^◌, ◌≤◌, max, ◌≡◌, refl, sym, ap, ◌∙◌, inl, inr, true, false, ltb, leb,
  List, [], ◌∷◌, length, length-replicate, replicate, Option, none, Bytes, bytes_eq, bytes_eq_refl,
  ok, arith, Bool-cases,
}
use native.Mathlib.Nat.{pow-suc}
use turndb.Dedup.Defs.{
  Loc, Slot, DedupTable, empty_hash, empty_slot, slot_at, clear, vacate_all, power_from,
  with_capacity,
}
use turndb.Dedup.Slots.{Reachable, Holds, occupied}
use turndb.Dedup.Probe.{slot-inj}
use turndb.Dedup.Insert.{Sound}
use turndb.Dedup.Growth.{fresh-Sound, fresh-Holds}
use turndb.Dedup.Table.{Implements}

vacate_all-vacant :
    (slots : List Slot) (i : ℕ) {s : Slot}
    → slot_at (vacate_all slots) i ≡ ok s
    → s.hash ≡ empty_hash
unfolding vacate_all slot_at
vacate_all-vacant [] i h = cc
vacate_all-vacant (x ∷ slots) zero {s} h = ap (λ (y : Slot). y.hash) (sym (slot-inj _ s h))
vacate_all-vacant (x ∷ slots) (suc i) h = vacate_all-vacant slots i h

length-vacate_all : (slots : List Slot) → length (vacate_all slots) ≡ length slots
unfolding vacate_all
length-vacate_all [] = refl
length-vacate_all (x ∷ slots) = ap suc (length-vacate_all slots)

occupied-vacate_all : (slots : List Slot) → occupied (vacate_all slots) ≡ 0
unfolding vacate_all occupied bytes_eq
occupied-vacate_all [] = refl
occupied-vacate_all (x ∷ slots) = occupied-vacate_all slots

abbrev pub no_entries : Bytes → Option Loc
no_entries k = none

vacant_differs : (h k : Bytes) → h ≡ empty_hash → bytes_eq k empty_hash ≡ false → ¬ (h ≡ k)
vacant_differs h k e full same =
    let self =
      ap (λ (x : Bytes). bytes_eq x empty_hash) (sym same ∙ e) ∙ bytes_eq_refl empty_hash in
    let clash = sym full ∙ self in cc

-- Clearing a table that implements a map leaves a table of the same size that holds no hash.
pub clear-Implements :
    (t : DedupTable) (entries : Bytes → Option Loc)
    → Implements t entries
    → Implements (clear t) no_entries × (length (clear t).slots ≡ length t.slots)
unfolding clear Implements Sound Reachable Holds
clear-Implements t entries (c, ((sized, masked, counted, reach), large, load, aside, held)) = (
  (
    c,
    (
      (
        length-vacate_all t.slots ∙ sized,
        masked,
        sym (occupied-vacate_all t.slots),
        λ i s at entry.
            let free =
              ap (λ (h : Bytes). bytes_eq h empty_hash) (vacate_all-vacant t.slots i at)
              ∙ bytes_eq_refl empty_hash in
            let clash = sym entry ∙ free in cc,
      ),
      large,
      omega arith,
      refl,
      λ k full i s at. vacant_differs s.hash k (vacate_all-vacant t.slots i at) full,
    ),
  ),
  length-vacate_all t.slots,
)

-- The loop finds a power of two that is not below `n`, in its sixty-four rounds when one is left.
power_from-pow :
    (fuel a n : ℕ)
    → n ≤ 2 ^ (a + fuel)
    → (c : ℕ) × ((power_from (suc fuel) (2 ^ a) n ≡ ok (2 ^ c)) × (n ≤ 2 ^ c))
unfolding power_from
power_from-pow zero a n h =
    let enough : leb n (2 ^ a) ≡ true =
      ground (arith, h, ap (λ (k : ℕ). 2 ^ k) {x = a + 0} {y = a} (omega arith)) in
    (a, (rw enough refl, ground arith))
power_from-pow (suc fuel) a n h = elim (Bool-cases (leb n (2 ^ a))) [
  | inl enough ↦ (a, (rw enough refl, ground arith))
  | inr short ↦
      let (c, (found, large)) = power_from-pow fuel (suc a) n (
        omega
          (arith, h, ap (λ (k : ℕ). 2 ^ k) {x = a + suc fuel} {y = suc a + fuel} (omega arith))) in
      (c, (rw short (ap (λ (p : ℕ). power_from (suc fuel) p n) (sym (pow-suc 2 a)) ∙ found), large))
]

-- A table made for a capacity up to 2^63 holds no hash, and has at least that many slots.
pub with_capacity-Implements :
    (n : ℕ)
    → n ≤ 2 ^ 63
    → (t : DedupTable) × ((with_capacity n ≡ ok t) × Implements t no_entries × (n ≤ length t.slots))
unfolding with_capacity Implements
with_capacity-Implements n h =
    let (c, (found, large)) = power_from-pow 63 0 n h in
    let size = sixteen c in
    (
      record {
        slots = replicate (max (2 ^ c) 16) empty_slot;
        mask = max (2 ^ c) 16 - 1;
        len = 0;
        zero_loc = none;
      },
      (
        rw found refl,
        (
          size.0,
          (
            fresh-Sound size.0 (max (2 ^ c) 16) none size.1,
            omega (arith, size.1),
            omega arith,
            refl,
            λ k full. fresh-Holds (max (2 ^ c) 16) k full,
          ),
        ),
        omega (arith, large, length-replicate (max (2 ^ c) 16) empty_slot),
      ),
    )
  where
    sixteen : (c : ℕ) → (e : ℕ) × (max (2 ^ c) 16 ≡ 2 ^ e)
    sixteen c = elim (Bool-cases (ltb (2 ^ c) 16)) [
      | inl l ↦ (4, ground arith)
      | inr g ↦ (c, ground arith)
    ]
