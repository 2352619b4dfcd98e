-- ===== src/Dedup/Table.antt =====
-- The table against a map from hashes to locations.
use turndb.Shared.{
  ℕ, suc, ◌+◌, ◌*◌, ◌^◌, ◌≤◌, ◌<◌, ◌≡◌, refl, sym, subst, ap, ◌∙◌, inl, inr, true, false, ltb,
  if◌then◌else◌, length, Option, some, Bytes, bytes_eq, bytes_eq_refl, bytes_eq→eq, ok, arith,
  Bool-cases,
}
use native.Mathlib.Nat.{pow-suc}
use turndb.Shared.Bits.{two_pow_pos}
use turndb.Dedup.Defs.{Loc, DedupTable, empty_hash, get, insert, grow}
use turndb.Dedup.Slots.{Holds, occupied, Stops-found}
use turndb.Dedup.Probe.{Stops}
use turndb.Dedup.Insert.{Sound, first_wins, insert_raw-Inserted, seek-Stops}
use turndb.Dedup.Growth.{grow-Sound}

-- The map with an entry inserted: a hash that is there keeps its location, but for the hash that
-- marks empty slots, which takes the new one.
unfoldable pub with_entry : (Bytes → Option Loc) → Bytes → Loc → Bytes → Option Loc
with_entry entries hash loc k =
    if bytes_eq k hash
    then (if bytes_eq hash empty_hash then some loc else first_wins (entries k) loc)
    else entries k

-- The table has a power of two of slots, sixteen at least and at most three in four occupied;
-- every hash is held as the map says.
unfoldable pub Implements : DedupTable → (Bytes → Option Loc) → Type 0
Implements t entries =
    (c : ℕ) × (Sound c t
      × (16 ≤ 2 ^ c)
      × (t.len * 4 ≤ 2 ^ c * 3)
      × (t.zero_loc ≡ entries empty_hash)
      × ((k : Bytes) → bytes_eq k empty_hash ≡ false → Holds t.slots k (entries k)))

not_full : (c : ℕ) (t : DedupTable) → Sound c t → t.len * 4 ≤ 2 ^ c * 3 → occupied t.slots < 2 ^ c
unfolding Sound
not_full c t sound load = omega (arith, sound.2, two_pow_pos c)

-- In a table that implements a map, `get` ends and returns what the map has for the hash.
pub get-Implements :
    (t : DedupTable) (entries : Bytes → Option Loc) (hash : Bytes)
    → Implements t entries
    → get t hash ≡ ok (entries hash)
unfolding get Implements Sound Stops
get-Implements t entries hash (c, (sound, large, load, aside, held)) =
    elim (Bool-cases (bytes_eq hash empty_hash)) [
      | inl e ↦
          rw (e, aside) (ap (λ (k : Bytes). ok (entries k)) (sym (bytes_eq→eq hash empty_hash e)))
      | inr n ↦
          let (d, (s, (stopped, loop))) = seek-Stops c t hash sound (not_full c t sound load) in
          rw (n, loop, stopped.2)
            (ap (λ (o : Option Loc). ok o)
              (Stops-found c t.slots hash d s (entries hash) sound.3 n stopped (held hash n)))
    ]

-- What `insert` needs before `insert_raw`: a sound table with room for one more entry.
Roomy : ℕ → DedupTable → (Bytes → Option Loc) → Type 0
Roomy c t entries =
    Sound c t
    × (16 ≤ 2 ^ c)
    × (suc t.len * 4 ≤ 2 ^ c * 3)
    × (t.zero_loc ≡ entries empty_hash)
    × ((k : Bytes) → bytes_eq k empty_hash ≡ false → Holds t.slots k (entries k))

room_made :
    (t : DedupTable) (entries : Bytes → Option Loc)
    → Implements t entries
    → (mid : DedupTable) × ((c : ℕ) × (((if ltb (length t.slots * 3) ((t.len + 1) * 4)
              then grow t
              else ok t)
            ≡ ok mid)
          × Roomy c mid entries))
unfolding Implements Roomy Sound
room_made t entries (c, (sound, large, load, aside, held)) =
    elim (Bool-cases (ltb (length t.slots * 3) ((t.len + 1) * 4))) [
      | inl tight ↦
          let (mid, (done, sound_mid, short, zero_mid, held_mid)) =
            grow-Sound c t sound (not_full c t sound load) in
          (
            mid,
            (
              suc c,
              (
                rw tight done,
                (
                  sound_mid,
                  omega (arith, pow-suc 2 c),
                  omega (arith, pow-suc 2 c),
                  zero_mid ∙ aside,
                  λ k full. held_mid k (entries k) full (held k full),
                ),
              ),
            ),
          )
      | inr fits ↦ (t, (c, (rw fits refl, (sound, large, ground (arith, sound.0), aside, held))))
    ]

module _ (entries : Bytes → Option Loc) (hash : Bytes) (loc : Loc) where
  with_entry_zero :
      bytes_eq hash empty_hash ≡ true → with_entry entries hash loc empty_hash ≡ some loc
  unfolding with_entry
  with_entry_zero e =
      let same = bytes_eq→eq hash empty_hash e in
      let self = ap (λ (h : Bytes). bytes_eq empty_hash h) same ∙ bytes_eq_refl empty_hash in
      rw (self, e) refl

  with_entry_other :
      (k : Bytes) → bytes_eq k hash ≡ false → with_entry entries hash loc k ≡ entries k
  unfolding with_entry
  with_entry_other k n = rw n refl

  with_entry_full :
      (k : Bytes)
      → bytes_eq hash empty_hash ≡ false
      → (if bytes_eq k hash then first_wins (entries k) loc else entries k)
        ≡ with_entry entries hash loc k
  unfolding with_entry
  with_entry_full k n = rw n refl

bytes_eq_swap : (a b : Bytes) → bytes_eq a b ≡ false → bytes_eq b a ≡ false
bytes_eq_swap a b n = elim (Bool-cases (bytes_eq b a)) [
  | inl e ↦
      let self = ap (λ (x : Bytes). bytes_eq a x) (bytes_eq→eq b a e) ∙ bytes_eq_refl a in
      let clash = sym n ∙ self in cc
  | inr m ↦ m
]

-- Inserting into a table that implements a map ends, and the table then implements the map with the
-- entry; at most three in four of its slots are occupied, also when the table had to grow.
pub insert-Implements :
    (t : DedupTable) (entries : Bytes → Option Loc) (hash : Bytes) (loc : Loc)
    → Implements t entries
    → (later : DedupTable) × ((insert t hash loc ≡ ok later)
        × Implements later (with_entry entries hash loc))
unfolding insert Implements Roomy Sound
insert-Implements t entries hash loc implements = elim (Bool-cases (bytes_eq hash empty_hash)) [
  | inl e ↦
      let (c, (sound, large, load, aside, held)) = implements in
      (
        record { slots = t.slots; mask = t.mask; len = t.len; zero_loc = some loc },
        (
          rw e refl,
          (
            c,
            (
              sound,
              large,
              load,
              sym (with_entry_zero entries hash loc e),
              λ k full.
                  subst (λ (o : Option Loc). Holds t.slots k o)
                    (sym (
                      with_entry_other entries hash loc k
                        (ap (λ (h : Bytes). bytes_eq k h) (bytes_eq→eq hash empty_hash e) ∙ full)))
                    (held k full),
            ),
          ),
        ),
      )
  | inr n ↦
      let (mid, (c, (made, (sound, large, load, aside, held)))) = room_made t entries implements in
      let (later, (done, (sound_later, grew, zero_later, held_later))) =
        insert_raw-Inserted c mid hash loc sound (not_full c mid sound (omega arith)) n in
      (
        later,
        (
          rw (n, made) done,
          (
            c,
            (
              sound_later,
              large,
              omega arith,
              zero_later
                  ∙ aside
                  ∙ sym (
                      with_entry_other entries hash loc empty_hash
                        (bytes_eq_swap hash empty_hash n)),
              λ k full.
                  subst (λ (o : Option Loc). Holds later.slots k o)
                    (with_entry_full entries hash loc k n)
                    (held_later k (entries k) full (held k full)),
            ),
          ),
        ),
      )
]
