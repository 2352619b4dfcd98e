-- ===== src/Dedup/Insert.antt =====
-- `insert_raw` and what it leaves in the slots.
use native.Mathlib.Nat.{mod-lt}
use turndb.Shared.{
  ℕ, suc, ◌+◌, ◌-◌, ◌^◌, ◌≤◌, ◌<◌, ◌≡◌, refl, sym, subst, ap, ap₂, bit_and, ◌∙◌, inl, inr, Bool,
  true, false, if◌then◌else◌, List, length, take, Option, none, some, Bytes, bytes_eq,
  bytes_eq_refl, bytes_eq→eq, ok, arith, Bool-cases,
}
use turndb.Shared.Bits.{bit_and_mask, two_pow_pos}
use turndb.Shared.Words.{from_le_bytes}
use turndb.Dedup.Defs.{
  Loc, Slot, DedupTable, empty_hash, is_vacant, store_slot, seek, probe_start, insert_raw,
}
use turndb.Dedup.Probe.{place, Stops, slot_at-lt, seek-place, probe-Stops}
use turndb.Dedup.Slots.{
  home, Reachable, Holds, Stops-found, occupied, occupied-vacant, occupied-store_slot,
}
use turndb.Dedup.Store.{length-store_slot, store_slot_here, Reachable-store_slot, Holds-store_slot}

-- The location that an insertion leaves a hash with: the first one wins.
abbrev pub first_wins : Option Loc → Loc → Option Loc
first_wins none loc = some loc
first_wins (some old) loc = some old

-- A table of `2 ^ c` slots in which every entry is found.
unfoldable pub Sound : ℕ → DedupTable → Type 0
Sound c t =
    (length t.slots ≡ 2 ^ c)
    × (t.mask ≡ 2 ^ c - 1)
    × (t.len ≡ occupied t.slots)
    × Reachable c t.slots

probe_start-home :
    (c : ℕ) (t : DedupTable) (hash : Bytes) → t.mask ≡ 2 ^ c - 1 → probe_start t hash ≡ home c hash
unfolding probe_start
probe_start-home c t hash e =
    ap (λ (m : ℕ). bit_and (from_le_bytes (take 8 hash)) m) e
    ∙ bit_and_mask c (from_le_bytes (take 8 hash))

-- In a table with an empty slot the loop ends at the slot that stops the probe sequence.
pub seek-Stops :
    (c : ℕ) (t : DedupTable) (hash : Bytes)
    → Sound c t
    → occupied t.slots < 2 ^ c
    → (d : ℕ) × ((s : Slot) × (Stops c t.slots hash (home c hash) d s
          × (seek t.slots t.mask hash (length t.slots) (probe_start t hash)
              ≡ ok (place c (home c hash) d))))
unfolding Sound Stops
seek-Stops c t hash (sized, masked, counted, reach) room =
    let (i, (vacant, (at, free))) = occupied-vacant t.slots (omega arith) in
    let inside : home c hash < 2 ^ c = mod-lt (from_le_bytes (take 8 hash)) (two_pow_pos c) in
    let (d, (s, (short, passed, there, stop))) =
      probe-Stops c t.slots hash (home c hash) i vacant sized inside at free in
    let loop =
      seek-place c t.slots hash (length t.slots) (home c hash) d s inside (omega arith) passed there
        stop in
    (
      d,
      (
        s,
        (
          (short, passed, there, stop),
          ap₂ (λ (m : ℕ) (b : ℕ). seek t.slots m hash (length t.slots) b) masked
                (probe_start-home c t hash masked)
              ∙ loop,
        ),
      ),
    )

-- What an insertion leaves: the table is sound, and only the hash inserted can be held anew.
abbrev pub Inserted : ℕ → DedupTable → Bytes → Loc → DedupTable → Type 0
Inserted c t hash loc later =
    Sound c later
    × (later.len ≤ suc t.len)
    × (later.zero_loc ≡ t.zero_loc)
    × ((k : Bytes) (held : Option Loc)
        → bytes_eq k empty_hash ≡ false
        → Holds t.slots k held
        → Holds later.slots k (if bytes_eq k hash then first_wins held loc else held))

Holds-here :
    (slots : List Slot) (i : ℕ) (hash : Bytes) (loc : Loc)
    → i < length slots
    → Holds (store_slot slots i (record { hash = hash; loc = loc })) hash (some loc)
unfolding Holds
Holds-here slots i hash loc lt = (i, store_slot_here slots i (record { hash = hash; loc = loc }) lt)

module _ (c : ℕ) (t : DedupTable) (hash : Bytes) (loc : Loc) (d : ℕ) (s : Slot) (sound : Sound c t)
    (full : bytes_eq hash empty_hash ≡ false)
    (stopped : Stops c t.slots hash (home c hash) d s) where
  abbrev stored : DedupTable
  stored = record {
    slots = store_slot t.slots (place c (home c hash) d) (record { hash = hash; loc = loc });
    mask = t.mask;
    len = t.len + 1;
    zero_loc = t.zero_loc;
  }

  stored-Inserted : is_vacant s ≡ true → Inserted c t hash loc stored
  unfolding Sound Stops
  stored-Inserted free =
      let (sized, masked, counted, reach) = sound in
      let (short, passed, there, stop) = stopped in
      let new : Slot = record { hash = hash; loc = loc } in
      let i : ℕ = place c (home c hash) d in
      (
        (
          length-store_slot t.slots i new ∙ sized,
          masked,
          omega (arith, counted, occupied-store_slot t.slots i s new there free full),
          Reachable-store_slot c t.slots i s new there free d reach short refl passed,
        ),
        omega arith,
        refl,
        λ k held entry have. elim (Bool-cases (bytes_eq k hash)) [
          | inl e ↦
              let same = bytes_eq→eq k hash e in
              let nothing =
                Stops-found c t.slots hash d s held reach full stopped
                  (subst (λ (x : Bytes). Holds t.slots x held) same have) in
              let empty : held ≡ none = sym nothing ∙ rw free refl in
              rw (e, empty, same) (Holds-here t.slots i hash loc (slot_at-lt t.slots i there))
          | inr n ↦ rw n (
              Holds-store_slot c t.slots i s new there free k held entry
                (λ (x : hash ≡ k).
                  let self = bytes_eq_refl k in
                  let swap = ap (λ (y : Bytes). bytes_eq k y) x in
                  let clash = sym n ∙ swap ∙ self in cc)
                have)
        ],
      )

  kept-Inserted : is_vacant s ≡ false → Inserted c t hash loc t
  unfolding Sound Stops
  kept-Inserted entry_here =
      let (sized, masked, counted, reach) = sound in
      (
        sound,
        omega arith,
        refl,
        λ k held entry have. elim (Bool-cases (bytes_eq k hash)) [
          | inl e ↦
              let same = bytes_eq→eq k hash e in
              let found =
                Stops-found c t.slots hash d s held reach full stopped
                  (subst (λ (x : Bytes). Holds t.slots x held) same have) in
              let known : held ≡ some s.loc = sym found ∙ rw entry_here refl in
              let unchanged : first_wins held loc ≡ held =
                ap (λ (o : Option Loc). first_wins o loc) known ∙ sym known in
              rw (e, unchanged) have
          | inr n ↦ rw n have
        ],
      )

pub insert_raw-Inserted :
    (c : ℕ) (t : DedupTable) (hash : Bytes) (loc : Loc)
    → Sound c t
    → occupied t.slots < 2 ^ c
    → bytes_eq hash empty_hash ≡ false
    → (later : DedupTable) × ((insert_raw t hash loc ≡ ok later) × Inserted c t hash loc later)
unfolding insert_raw Stops
insert_raw-Inserted c t hash loc sound room full =
    let (d, (s, (stopped, loop))) = seek-Stops c t hash sound room in
    elim (Bool-cases (is_vacant s)) [
      | inl free ↦ (
        stored c t hash loc d s sound full stopped,
        (
          rw (loop, stopped.2)
              (ap (λ (b : Bool). ok (if b then stored c t hash loc d s sound full stopped else t))
                free),
          stored-Inserted c t hash loc d s sound full stopped free,
        ),
      )
      | inr entry ↦ (
        t,
        (
          rw (loop, stopped.2)
              (ap (λ (b : Bool). ok (if b then stored c t hash loc d s sound full stopped else t))
                entry),
          kept-Inserted c t hash loc d s sound full stopped entry,
        ),
      )
    ]
