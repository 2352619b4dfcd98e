-- ===== src/Dedup/Slots.antt =====
-- What the slots hold, and where the probe sequences reach it.
use turndb.Shared.{
  ℕ, zero, suc, ◌%◌, ◌^◌, ◌<◌, ◌≡◌, refl, sym, ap, ◌∙◌, inl, inr, Bool, true, false, ltb, ◌||◌,
  if◌then◌else◌, List, [], ◌∷◌, length, take, Option, none, some, Bytes, bytes_eq, bytes_eq_refl,
  bytes_eq→eq, ok, arith, Bool-cases,
}
use turndb.Shared.Words.{from_le_bytes}
use turndb.Dedup.Defs.{Loc, Slot, empty_hash, is_vacant, stops, slot_at, store_slot}
use turndb.Dedup.Probe.{place, Passed, Stops, slot-inj}

-- Where the probe sequence of a hash starts.
abbrev pub home : ℕ → Bytes → ℕ
home c hash = from_le_bytes (take 8 hash) % 2 ^ c

-- The slot `s` at the index `i` is on the probe sequence of its hash, with no earlier stop.
abbrev pub OnPath : ℕ → List Slot → ℕ → Slot → Type 0
OnPath c slots i s =
    (d : ℕ) × ((d < 2 ^ c)
      × (place c (home c s.hash) d ≡ i)
      × Passed c slots s.hash (home c s.hash) d)

-- Every entry is on the probe sequence of its hash, before the first slot that stops it.
unfoldable pub Reachable : ℕ → List Slot → Type 0
Reachable c slots =
    (i : ℕ) (s : Slot) → slot_at slots i ≡ ok s → is_vacant s ≡ false → OnPath c slots i s

-- The location of a hash in the slots, or that no slot has it.
unfoldable pub Holds : List Slot → Bytes → Option Loc → Type 0
Holds slots hash none = (i : ℕ) (s : Slot) → slot_at slots i ≡ ok s → ¬ (s.hash ≡ hash)
Holds slots hash (some loc) = (i : ℕ) × (slot_at slots i ≡ ok (record { hash = hash; loc = loc }))

abbrev pub found_at : Slot → Option Loc
found_at s = if is_vacant s then none else some s.loc

hash-stops : (hash : Bytes) (s : Slot) → s.hash ≡ hash → stops hash s ≡ true
unfolding stops
hash-stops hash s e =
    let same : bytes_eq s.hash hash ≡ true = rw e (bytes_eq_refl hash) in
    elim (Bool-cases (is_vacant s)) [ inl v ↦ rw v refl | inr v ↦ rw (v, same) refl ]

stops-hash : (hash : Bytes) (s : Slot) → stops hash s ≡ true → is_vacant s ≡ false → s.hash ≡ hash
unfolding stops
stops-hash hash s h v = elim (Bool-cases (bytes_eq s.hash hash)) [
  | inl e ↦ bytes_eq→eq s.hash hash e
  | inr n ↦
      let none_of : (is_vacant s || bytes_eq s.hash hash) ≡ false = rw (v, n) refl in
      let clash = sym h ∙ none_of in cc
]

-- The slot where the probe sequence of a hash stops tells what the slots hold of it.
pub Stops-found :
    (c : ℕ) (slots : List Slot) (hash : Bytes) (d : ℕ) (s : Slot) (held : Option Loc)
    → Reachable c slots
    → bytes_eq hash empty_hash ≡ false
    → Stops c slots hash (home c hash) d s
    → Holds slots hash held
    → found_at s ≡ held
unfolding Reachable Holds Stops
Stops-found c slots hash d s none reach full (inside, passed, there, stop) held =
    elim (Bool-cases (is_vacant s)) [
      | inl v ↦ rw v refl
      | inr v ↦ elim (held (place c (home c hash) d) s there (stops-hash hash s stop v)) [ ]
    ]
Stops-found c slots hash d s (some loc) reach full (inside, passed, there, stop) (i, at) =
    let entry : Slot = record { hash = hash; loc = loc } in
    let (e, (inside_e, same, passed_e)) = reach i entry at full in
    let at_e = ap (λ (j : ℕ). slot_at slots j) same ∙ at in
    elim (Bool-cases (ltb d e)) [
      | inl before ↦
          let (x, (at_x, pass)) = passed_e d (ground arith) in
          let clash =
            sym stop ∙ ap (λ (y : Slot). stops hash y) (slot-inj s x (sym there ∙ at_x)) ∙ pass in
          cc
      | inr after ↦ elim (Bool-cases (ltb e d)) [
        | inl before ↦
            let (x, (at_x, pass)) = passed e (ground arith) in
            let clash =
              sym (hash-stops hash entry refl)
              ∙ ap (λ (y : Slot). stops hash y) (slot-inj entry x (sym at_e ∙ at_x))
              ∙ pass in
            cc
        | inr equal ↦
            let one : d ≡ e = ground arith in
            let whole =
              slot-inj s entry
                (sym there ∙ ap (λ (j : ℕ). slot_at slots (place c (home c hash) j)) one ∙ at_e) in
            ap (λ (y : Slot). found_at y) whole ∙ rw full refl
      ]
    ]

unfoldable pub occupied : List Slot → ℕ
occupied [] = 0
occupied (s ∷ slots) = if is_vacant s then occupied slots else suc (occupied slots)

-- Slots that are not all occupied have an empty one.
pub occupied-vacant :
    (slots : List Slot)
    → occupied slots < length slots
    → (i : ℕ) × ((s : Slot) × ((slot_at slots i ≡ ok s) × (is_vacant s ≡ true)))
unfolding occupied slot_at
occupied-vacant [] h = elim h [ ]
occupied-vacant (x ∷ slots) h = elim (Bool-cases (is_vacant x)) [
  | inl v ↦ (0, (x, (refl, v)))
  | inr v ↦
      let more : occupied (x ∷ slots) ≡ suc (occupied slots) = rw v refl in
      let fewer : occupied slots < length slots = omega arith in
      let (i, (s, (at, vacant))) = occupied-vacant slots fewer in (suc i, (s, (at, vacant)))
]

pub occupied-store_slot :
    (slots : List Slot) (i : ℕ) (old new : Slot)
    → slot_at slots i ≡ ok old
    → is_vacant old ≡ true
    → is_vacant new ≡ false
    → occupied (store_slot slots i new) ≡ suc (occupied slots)
unfolding occupied slot_at store_slot
occupied-store_slot [] i old new at v w = cc
occupied-store_slot (x ∷ slots) zero old new at v w =
    let vacant = ap (λ (y : Slot). is_vacant y) (slot-inj x old at) ∙ v in rw (w, vacant) refl
occupied-store_slot (x ∷ slots) (suc i) old new at v w =
    rw (occupied-store_slot slots i old new at v w) (one_more (is_vacant x) (occupied slots))
  where
    one_more :
        (b : Bool) (n : ℕ) → (if b then suc n else suc (suc n)) ≡ suc (if b then n else suc n)
    one_more true n = refl
    one_more false n = refl
