-- ===== src/Dedup/Growth.antt =====
-- `grow`: the entries of the old slots in a table of twice the size.
use turndb.Shared.{
  ℕ, zero, suc, ◌+◌, ◌-◌, ◌*◌, ◌^◌, ◌≤◌, ◌<◌, ◌≡◌, refl, sym, subst, ap, ◌∙◌, inl, inr, Bool, true,
  false, List, [], ◌∷◌, length, length-replicate, replicate, Option, none, Bytes, bytes_eq,
  bytes_eq_refl, Result, ok, ◌>>=◌, arith, Bool-cases,
}
use native.Mathlib.Nat.{pow-suc}
use turndb.Dedup.Defs.{
  Loc, Slot, DedupTable, empty_hash, empty_slot, is_vacant, slot_at, insert_raw, reinsert, grow,
}
use turndb.Dedup.Probe.{slot-inj}
use turndb.Dedup.Slots.{Reachable, Holds, occupied, Stops-found}
use turndb.Dedup.First.{
  first_of, or_first, or_first-none, first_of_vacant, first_of_entry, first_of-Holds,
}
use turndb.Dedup.Insert.{Sound, insert_raw-Inserted, seek-Stops}

reinsert_round :
    (s : Slot) (old : List Slot) (t : DedupTable) (free : Bool)
    → is_vacant s ≡ free
    → reinsert (s ∷ old) t ≡ (elim free [
      | true ↦ reinsert old t
      | false ↦ (insert_raw t s.hash s.loc >>= λ t. reinsert old t)
    ])
unfolding reinsert
reinsert_round s old t free e = ap next e
  where
    next : Bool → Result DedupTable
    next b = elim b [
      | true ↦ reinsert old t
      | false ↦ (insert_raw t s.hash s.loc >>= λ t. reinsert old t)
    ]

-- What the loop leaves: every hash is held as before, or else as the first old slot that has it.
abbrev Reinserted : ℕ → List Slot → DedupTable → DedupTable → Type 0
Reinserted c old t later =
    Sound c later
    × (later.len ≤ t.len + occupied old)
    × (later.zero_loc ≡ t.zero_loc)
    × ((k : Bytes) (held : Option Loc)
        → bytes_eq k empty_hash ≡ false
        → Holds t.slots k held
        → Holds later.slots k (or_first held (first_of old k)))

reinsert-Reinserted :
    (c : ℕ) (old : List Slot) (t : DedupTable)
    → Sound c t
    → t.len + occupied old < 2 ^ c
    → (later : DedupTable) × ((reinsert old t ≡ ok later) × Reinserted c old t later)
unfolding occupied Sound reinsert
reinsert-Reinserted c [] t sound room = (
  t,
  (
    refl,
    (
      sound,
      omega arith,
      refl,
      λ k held full have.
          subst (λ (o : Option Loc). Holds t.slots k o) (sym (or_first-none held)) have,
    ),
  ),
)
reinsert-Reinserted c (s ∷ old) t sound room = elim (Bool-cases (is_vacant s)) [
  | inl free ↦
      let none_more : occupied (s ∷ old) ≡ occupied old = rw free refl in
      let (last, (done, (sound_last, len_last, zero_last, held_last))) =
        reinsert-Reinserted c old t sound (omega arith) in
      (
        last,
        (
          reinsert_round s old t true free ∙ done,
          (
            sound_last,
            omega arith,
            zero_last,
            λ k held full have.
                subst (λ (o : Option Loc). Holds last.slots k (or_first held o))
                  (sym (first_of_vacant s old k free)) (held_last k held full have),
          ),
        ),
      )
  | inr entry ↦
      let more : occupied (s ∷ old) ≡ suc (occupied old) = rw entry refl in
      let (mid, (placed, (sound_mid, grew, zero_mid, held_mid))) =
        insert_raw-Inserted c t s.hash s.loc sound (omega (arith, sound.2)) entry in
      let (last, (done, (sound_last, len_last, zero_last, held_last))) =
        reinsert-Reinserted c old mid sound_mid (omega arith) in
      (
        last,
        (
          reinsert_round s old t false entry ∙ rw placed done,
          (
            sound_last,
            omega arith,
            zero_last ∙ zero_mid,
            λ k held full have.
                subst (λ (o : Option Loc). Holds last.slots k o) (first_of_entry s old k held entry)
                  (held_last k _ full (held_mid k held full have)),
          ),
        ),
      )
]

slot_at-replicate :
    (n i : ℕ) {s : Slot} → slot_at (replicate n empty_slot) i ≡ ok s → s ≡ empty_slot
unfolding slot_at
slot_at-replicate zero i h = cc
slot_at-replicate (suc n) zero {s} h = sym (slot-inj empty_slot s h)
slot_at-replicate (suc n) (suc i) h = slot_at-replicate n i h

occupied-replicate : (n : ℕ) → occupied (replicate n empty_slot) ≡ 0
unfolding occupied bytes_eq
occupied-replicate zero = refl
occupied-replicate (suc n) = occupied-replicate n

-- Empty slots only: a sound table that holds no hash.
pub fresh-Sound :
    (c n : ℕ) (zero_loc : Option Loc)
    → n ≡ 2 ^ c
    → Sound c
        (record { slots = replicate n empty_slot; mask = n - 1; len = 0; zero_loc = zero_loc })
unfolding Sound Reachable bytes_eq
fresh-Sound c n zero_loc e = (
  length-replicate n empty_slot ∙ e,
  ap (λ (m : ℕ). m - 1) e,
  sym (occupied-replicate n),
  λ i s at entry.
      let clash = sym entry ∙ ap (λ (x : Slot). is_vacant x) (slot_at-replicate n i at) in cc,
)

pub fresh-Holds :
    (n : ℕ) (k : Bytes) → bytes_eq k empty_hash ≡ false → Holds (replicate n empty_slot) k none
unfolding Holds
fresh-Holds n k full i s at same =
    let hash : s.hash ≡ empty_hash = ap (λ (x : Slot). x.hash) (slot_at-replicate n i at) in
    let self = bytes_eq_refl k in
    let swap = ap (λ (y : Bytes). bytes_eq k y) (sym same ∙ hash) in
    let clash = sym full ∙ sym swap ∙ self in cc

-- In a sound table with an empty slot a hash has one location.
pub Holds-unique :
    (c : ℕ) (t : DedupTable) (k : Bytes) (a b : Option Loc)
    → Sound c t
    → occupied t.slots < 2 ^ c
    → bytes_eq k empty_hash ≡ false
    → Holds t.slots k a
    → Holds t.slots k b
    → a ≡ b
unfolding Sound
Holds-unique c t k a b sound room full have_a have_b =
    let (d, (s, (stopped, loop))) = seek-Stops c t k sound room in
    sym (Stops-found c t.slots k d s a sound.3 full stopped have_a)
    ∙ Stops-found c t.slots k d s b sound.3 full stopped have_b

-- Growing keeps what every hash is held as, and doubles the slots.
pub grow-Sound :
    (c : ℕ) (t : DedupTable)
    → Sound c t
    → occupied t.slots < 2 ^ c
    → (later : DedupTable) × ((grow t ≡ ok later)
        × Sound (suc c) later
        × (later.len ≤ t.len)
        × (later.zero_loc ≡ t.zero_loc)
        × ((k : Bytes) (held : Option Loc)
            → bytes_eq k empty_hash ≡ false
            → Holds t.slots k held
            → Holds later.slots k held))
unfolding grow Sound
grow-Sound c t sound room =
    let bigger : ℕ = length t.slots * 2 in
    let size : bigger ≡ 2 ^ suc c = omega (arith, sound.0, pow-suc 2 c) in
    let (later, (done, (sound_later, short, aside, held_later))) =
      reinsert-Reinserted (suc c) t.slots
        (record {
          slots = replicate bigger empty_slot;
          mask = bigger - 1;
          len = 0;
          zero_loc = t.zero_loc;
        })
        (fresh-Sound (suc c) bigger t.zero_loc size) (omega (arith, pow-suc 2 c)) in
    (
      later,
      (
        done,
        sound_later,
        omega (arith, sound.2),
        aside,
        λ k held full have.
            subst (λ (o : Option Loc). Holds later.slots k o)
              (Holds-unique c t k (first_of t.slots k) held sound room full
                (first_of-Holds t.slots k full) have)
              (held_later k none full (fresh-Holds bigger k full)),
      ),
    )
