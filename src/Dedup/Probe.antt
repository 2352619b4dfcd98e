-- ===== src/Dedup/Probe.antt =====
-- The probe sequence of a hash: the slots from its start on, around the end of the table.
use native.Mathlib.Nat.{mod-lt, mod-eq_of_lt, mod-add-mod, add-mod_right}
use turndb.Shared.{
  ℕ, zero, suc, ◌+◌, ◌-◌, ◌%◌, ◌^◌, ◌≤◌, ◌<◌, bit_and, ◌≡◌, refl, sym, ap, ◌∙◌, ◌⊎◌, inl, inr, Bool,
  true, false, ltb, List, [], ◌∷◌, length, Bytes, Result, ok, arith, Bool-cases,
}
use turndb.Shared.Bits.{bit_and_mask, two_pow_pos}
use turndb.Dedup.Defs.{Slot, is_vacant, stops, slot_at, seek}

pub slot_at-ok :
    (slots : List Slot) (i : ℕ) → i < length slots → (s : Slot) × (slot_at slots i ≡ ok s)
unfolding slot_at
slot_at-ok [] i lt = elim lt [ ]
slot_at-ok (s ∷ slots) zero lt = (s, refl)
slot_at-ok (s ∷ slots) (suc i) lt = slot_at-ok slots i (omega arith)

pub slot_at-lt : (slots : List Slot) (i : ℕ) {s : Slot} → slot_at slots i ≡ ok s → i < length slots
unfolding slot_at
slot_at-lt [] i h = cc
slot_at-lt (x ∷ slots) zero h = omega arith
slot_at-lt (x ∷ slots) (suc i) h = omega (arith, slot_at-lt slots i h)

-- The slot `d` steps behind `start`, in a table of `2 ^ c` slots.
abbrev pub place : ℕ → ℕ → ℕ → ℕ
place c start d = (start + d) % 2 ^ c

pub place-lt : (c start d : ℕ) → place c start d < 2 ^ c
place-lt c start d = mod-lt (start + d) (two_pow_pos c)

-- The first `n` slots of the probe sequence do not stop it.
abbrev pub Passed : ℕ → List Slot → Bytes → ℕ → ℕ → Type 0
Passed c slots hash start n =
    (d : ℕ)
    → d < n
    → (s : Slot) × ((slot_at slots (place c start d) ≡ ok s) × (stops hash s ≡ false))

-- The slot where the probe sequence stops: no earlier one stops it.
unfoldable pub Stops : ℕ → List Slot → Bytes → ℕ → ℕ → Slot → Type 0
Stops c slots hash start d s =
    (d < 2 ^ c)
    × Passed c slots hash start d
    × (slot_at slots (place c start d) ≡ ok s)
    × (stops hash s ≡ true)

later_place : (c start d : ℕ) → place c (place c start 1) d ≡ place c start (suc d)
later_place c start d = mod-add-mod (start + 1) (2 ^ c) d ∙ ap (λ (n : ℕ). n % 2 ^ c) (omega arith)

first_place : (c start : ℕ) → start < 2 ^ c → place c start 0 ≡ start
first_place c start lt = ap (λ (n : ℕ). n % 2 ^ c) {y = start} (omega arith) ∙ mod-eq_of_lt lt

-- One round of the loop.
seek_round :
    (slots : List Slot) (mask : ℕ) (hash : Bytes) (fuel i : ℕ) (s : Slot) (stop : Bool)
    → slot_at slots i ≡ ok s
    → stops hash s ≡ stop
    → seek slots mask hash (suc fuel) i
      ≡ (elim stop [ true ↦ ok i | false ↦ seek slots mask hash fuel (bit_and (i + 1) mask) ])
unfolding seek
seek_round slots mask hash fuel i s stop found e = rw found (ap next e)
  where
    next : Bool → Result ℕ
    next b = elim b [ true ↦ ok i | false ↦ seek slots mask hash fuel (bit_and (i + 1) mask) ]

-- The loop ends where the probe sequence stops, when it has a round for every slot up to there.
pub seek-place :
    (c : ℕ) (slots : List Slot) (hash : Bytes) (fuel start d : ℕ) (s : Slot)
    → start < 2 ^ c
    → d < fuel
    → Passed c slots hash start d
    → slot_at slots (place c start d) ≡ ok s
    → stops hash s ≡ true
    → seek slots (2 ^ c - 1) hash fuel start ≡ ok (place c start d)
seek-place c slots hash zero start d s lt enough passed there stop = elim enough [ ]
seek-place c slots hash (suc fuel) start zero s lt enough passed there stop =
    let here = first_place c start lt in
    let found = ap (λ (i : ℕ). slot_at slots i) (sym here) ∙ there in
    seek_round slots (2 ^ c - 1) hash fuel start s true found stop ∙ ap (λ (i : ℕ). ok i) (sym here)
seek-place c slots hash (suc fuel) start (suc d) s lt enough passed there stop =
    let (x, (at, pass)) = passed 0 (omega arith) in
    let found = ap (λ (i : ℕ). slot_at slots i) (sym (first_place c start lt)) ∙ at in
    let next = bit_and_mask c (start + 1) in
    seek_round slots (2 ^ c - 1) hash fuel start x false found pass
    ∙ ap (λ (i : ℕ). seek slots (2 ^ c - 1) hash fuel i) next
    ∙ seek-place c slots hash fuel (place c start 1) d s (place-lt c start 1) (omega arith)
        (λ e le.
          let (y, (at_y, pass_y)) = passed (suc e) (omega arith) in
          (y, (ap (λ (i : ℕ). slot_at slots i) (later_place c start e) ∙ at_y, pass_y)))
        (ap (λ (i : ℕ). slot_at slots i) (later_place c start d) ∙ there) stop
    ∙ ap (λ (i : ℕ). ok i) (later_place c start d)

-- Either the sequence stops within `n` steps, or it passes them all.
search_places :
    (c : ℕ) (slots : List Slot) (hash : Bytes) (start n : ℕ)
    → length slots ≡ 2 ^ c
    → n ≤ 2 ^ c
    → ((d : ℕ) × ((s : Slot) × Stops c slots hash start d s)) ⊎ Passed c slots hash start n
unfolding Stops
search_places c slots hash start zero sized le = inr (λ d lt. elim lt [ ])
search_places c slots hash start (suc n) sized le =
    elim (search_places c slots hash start n sized (omega arith)) [
      | inl found ↦ inl found
      | inr passed ↦
          let (s, at) =
            slot_at-ok slots (place c start n) (omega (arith, place-lt c start n, sized)) in
          elim (Bool-cases (stops hash s)) [
            | inl stop ↦ inl (n, (s, (omega arith, passed, at, stop)))
            | inr pass ↦ inr (λ d lt. elim (Bool-cases (ltb d n)) [
              | inl before ↦ passed d (ground arith)
              | inr last ↦
                  let same : n ≡ d = ground arith in
                  (s, (ap (λ (e : ℕ). slot_at slots (place c start e)) (sym same) ∙ at, pass))
            ])
          ]
    ]

-- Every slot is on every probe sequence.
pub place_onto :
    (c start i : ℕ) → start < 2 ^ c → i < 2 ^ c → (d : ℕ) × ((d < 2 ^ c) × (place c start d ≡ i))
place_onto c start i p q = elim (Bool-cases (ltb i start)) [
  | inl before ↦ (
    i + 2 ^ c - start,
    (
      ground arith,
      ap (λ (n : ℕ). n % 2 ^ c) {y = i + 2 ^ c} (ground arith)
          ∙ add-mod_right i (2 ^ c)
          ∙ mod-eq_of_lt q,
    ),
  )
  | inr after ↦
      (i - start, (ground arith, ap (λ (n : ℕ). n % 2 ^ c) {y = i} (ground arith) ∙ mod-eq_of_lt q))
]

pub slot-inj : (a b : Slot) → ok a ≡ ok b → a ≡ b
slot-inj a b h = cc

pub vacant-stops : (hash : Bytes) (s : Slot) → is_vacant s ≡ true → stops hash s ≡ true
unfolding stops
vacant-stops hash s h = rw h refl

-- A table with an empty slot stops every probe sequence.
pub probe-Stops :
    (c : ℕ) (slots : List Slot) (hash : Bytes) (start i : ℕ) (vacant : Slot)
    → length slots ≡ 2 ^ c
    → start < 2 ^ c
    → slot_at slots i ≡ ok vacant
    → is_vacant vacant ≡ true
    → (d : ℕ) × ((s : Slot) × Stops c slots hash start d s)
probe-Stops c slots hash start i vacant sized lt at free =
    elim (search_places c slots hash start (2 ^ c) sized (omega arith)) [
      | inl found ↦ found
      | inr passed ↦
          let (d, (inside, same)) =
            place_onto c start i lt (omega (arith, slot_at-lt slots i at, sized)) in
          let (s, (there, pass)) = passed d inside in
          let again = ap (λ (j : ℕ). slot_at slots j) same in
          let one = slot-inj s vacant (sym there ∙ again ∙ at) in
          let stop = vacant-stops hash vacant free in
          let clash = ap (λ (x : Slot). stops hash x) one in cc
    ]
