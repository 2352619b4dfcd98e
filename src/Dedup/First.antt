-- ===== src/Dedup/First.antt =====
-- The first slot that has a hash.
use turndb.Shared.{
  ℕ, zero, suc, ◌≡◌, refl, sym, ap, ◌∙◌, inl, inr, true, false, if◌then◌else◌, List, [], ◌∷◌,
  Option, none, some, Bytes, bytes_eq, bytes_eq_refl, bytes_eq→eq, ok, Bool-cases,
}
use turndb.Dedup.Defs.{Loc, Slot, empty_hash, is_vacant, slot_at}
use turndb.Dedup.Probe.{slot-inj}
use turndb.Dedup.Slots.{Holds}
use turndb.Dedup.Insert.{first_wins}

-- The first location of a hash among slots.
abbrev pub first_of : List Slot → Bytes → Option Loc
first_of [] k = none
first_of (s ∷ slots) k =
    if is_vacant s
    then first_of slots k
    else if bytes_eq k s.hash
    then some s.loc
    else first_of slots k

abbrev pub or_first : Option Loc → Option Loc → Option Loc
or_first none later = later
or_first (some loc) later = some loc

or_first-first_wins :
    (held : Option Loc) (loc : Loc) (rest : Option Loc)
    → or_first (first_wins held loc) rest ≡ or_first held (some loc)
or_first-first_wins none loc rest = refl
or_first-first_wins (some old) loc rest = refl

pub or_first-none : (held : Option Loc) → or_first held none ≡ held
or_first-none none = refl
or_first-none (some loc) = refl

pub first_of_vacant :
    (s : Slot) (old : List Slot) (k : Bytes)
    → is_vacant s ≡ true
    → first_of (s ∷ old) k ≡ first_of old k
first_of_vacant s old k e = rw e refl

-- An entry comes before the later slots.
pub first_of_entry :
    (s : Slot) (old : List Slot) (k : Bytes) (held : Option Loc)
    → is_vacant s ≡ false
    → or_first (if bytes_eq k s.hash then first_wins held s.loc else held) (first_of old k)
      ≡ or_first held (first_of (s ∷ old) k)
first_of_entry s old k held e = elim (Bool-cases (bytes_eq k s.hash)) [
  | inl y ↦ rw (e, y) (or_first-first_wins held s.loc (first_of old k))
  | inr n ↦ rw (e, n) refl
]

vacant_differs :
    (s : Slot) (k : Bytes) → bytes_eq k empty_hash ≡ false → is_vacant s ≡ true → ¬ (s.hash ≡ k)
vacant_differs s k full free same =
    let swap = ap (λ (y : Bytes). bytes_eq y empty_hash) same in
    let clash = sym free ∙ swap ∙ full in cc

other_differs : (s : Slot) (k : Bytes) → bytes_eq k s.hash ≡ false → ¬ (s.hash ≡ k)
other_differs s k n same =
    let self = bytes_eq_refl k in
    let swap = ap (λ (y : Bytes). bytes_eq k y) same in let clash = sym n ∙ swap ∙ self in cc

-- What the later slots hold of a hash that the first slot does not have.
Holds-behind :
    (x : Slot) (slots : List Slot) (k : Bytes) (held : Option Loc)
    → ¬ (x.hash ≡ k)
    → Holds slots k held
    → Holds (x ∷ slots) k held
unfolding Holds slot_at
Holds-behind x slots k none ne have = apart
  where
    apart : (i : ℕ) (s : Slot) → slot_at (x ∷ slots) i ≡ ok s → ¬ (s.hash ≡ k)
    apart zero s at same = ne (ap (λ (y : Slot). y.hash) (slot-inj x s at) ∙ same)
    apart (suc i) s at same = have i s at same
Holds-behind x slots k (some loc) ne have = (suc have.0, have.1)

Holds-first :
    (x : Slot) (slots : List Slot) (k : Bytes) → k ≡ x.hash → Holds (x ∷ slots) k (some x.loc)
unfolding Holds slot_at
Holds-first x slots k same =
    (0, ap (λ (h : Bytes). ok (record { hash = h; loc = x.loc })) (sym same))

Holds-none : (k : Bytes) → Holds [] k none
unfolding Holds slot_at
Holds-none k i s at = cc

-- A hash is held as the first slot that has it.
pub first_of-Holds :
    (slots : List Slot) (k : Bytes)
    → bytes_eq k empty_hash ≡ false
    → Holds slots k (first_of slots k)
first_of-Holds [] k full = Holds-none k
first_of-Holds (x ∷ slots) k full = elim (Bool-cases (is_vacant x)) [
  | inl free ↦
      rw free
        (Holds-behind x slots k _ (vacant_differs x k full free) (first_of-Holds slots k full))
  | inr entry ↦ elim (Bool-cases (bytes_eq k x.hash)) [
    | inl y ↦ rw (entry, y) (Holds-first x slots k (bytes_eq→eq k x.hash y))
    | inr n ↦
        rw (entry, n) (Holds-behind x slots k _ (other_differs x k n) (first_of-Holds slots k full))
  ]
]
