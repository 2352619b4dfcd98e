-- ===== src/Bloom/Filter.antt =====
-- `insert` and `maybe_contains`.
use turndb.Shared.{
  ℕ, zero, suc, ◌+◌, ◌/◌, ◌%◌, ◌^◌, ◌<◌, ◌≡◌, refl, sym, ap, ◌∙◌, inl, inr, Bool, true, false, ◌==◌,
  List, [], ◌∷◌, length, All, Bytes, bit_or, Result, ok, ◌>>=◌, >>=-eq-ok, arith, Bool-cases,
}
use turndb.Shared.Bits.{IsByte}
use turndb.Bloom.Defs.{
  Bloom, hash_count, probe, bit_set, byte_at, store_byte, set_bit, test_bit, insert_from, insert,
  contains_from, maybe_contains,
}
use turndb.Bloom.Bits.{bit_or-SetsBit, bit_or_kept}

-- The bit array has room for every bit that the count names.
abbrev pub IsBloom : Bloom → Type 0
IsBloom f = (0 < f.m) × (f.m < 2 ^ 64) × (length f.bits ≡ (f.m + 7) / 8) × All IsByte f.bits

-- Every bit that is set in the one is set in the other.
abbrev pub Kept : Bytes → Bytes → Type 0
Kept bits later = (q : ℕ) → test_bit bits q ≡ ok true → test_bit later q ≡ ok true

pub byte_at-some :
    (bits : Bytes) (i : ℕ)
    → i < length bits
    → All IsByte bits
    → (b : ℕ) × (byte_at bits i ≡ ok b) × IsByte b
unfolding byte_at
byte_at-some [] i lt bytes = elim lt [ ]
byte_at-some (b ∷ bits) zero lt bytes = (b, refl, bytes.0)
byte_at-some (b ∷ bits) (suc i) lt bytes = byte_at-some bits i (omega arith) bytes.1

Stored : Bytes → ℕ → ℕ → Bytes → Type 0
Stored bits i byte later =
    (store_byte bits i byte ≡ ok later)
    × (length later ≡ length bits)
    × All IsByte later
    × (byte_at later i ≡ ok byte)
    × ((k : ℕ) → ¬ (k ≡ i) → byte_at later k ≡ byte_at bits k)

store_byte-Stored :
    (bits : Bytes) (i byte : ℕ)
    → i < length bits
    → All IsByte bits
    → IsByte byte
    → (later : Bytes) × Stored bits i byte later
unfolding store_byte byte_at Stored
store_byte-Stored [] i byte lt bytes small = elim lt [ ]
store_byte-Stored (b ∷ bits) zero byte lt bytes small =
    (byte ∷ bits, (refl, refl, (small, bytes.1), refl, elsewhere))
  where
    elsewhere : (k : ℕ) → ¬ (k ≡ 0) → byte_at (byte ∷ bits) k ≡ byte_at (b ∷ bits) k
    elsewhere zero ne = elim (ne refl) [ ]
    elsewhere (suc k) ne = refl
store_byte-Stored (b ∷ bits) (suc i) byte lt bytes small =
    let (later, (done, same, small_later, here, elsewhere)) =
      store_byte-Stored bits i byte (omega arith) bytes.1 small in
    (b ∷ later, (rw done refl, ap suc same, (bytes.0, small_later), here, shifted later elsewhere))
  where
    shifted :
        (later : Bytes)
        → ((k : ℕ) → ¬ (k ≡ i) → byte_at later k ≡ byte_at bits k)
        → (k : ℕ) → ¬ (k ≡ suc i)
        → byte_at (b ∷ later) k ≡ byte_at (b ∷ bits) k
    shifted later elsewhere zero ne = refl
    shifted later elsewhere (suc k) ne = elsewhere k (λ e. ne (ap suc e))

SetAt : Bytes → ℕ → Bytes → Type 0
SetAt bits p later =
    (set_bit bits p ≡ ok later)
    × (length later ≡ length bits)
    × All IsByte later
    × (test_bit later p ≡ ok true)
    × Kept bits later

test_bit-bit_set :
    (bits : Bytes) (q b : ℕ)
    → byte_at bits (q / 8) ≡ ok b
    → test_bit bits q ≡ ok true
    → bit_set b (q % 8) ≡ true
unfolding test_bit
test_bit-bit_set bits q b there h =
    let e : ok (bit_set b (q % 8)) ≡ ok true =
      ap (λ r. r >>= λ (byte : ℕ). ok (bit_set byte (q % 8))) (sym there) ∙ h in
    cc

set_bit-SetAt :
    (bits : Bytes) (p : ℕ)
    → p / 8 < length bits
    → All IsByte bits
    → (later : Bytes) × SetAt bits p later
unfolding set_bit test_bit Stored SetAt
set_bit-SetAt bits p lt bytes =
    let (b, there, small) = byte_at-some bits (p / 8) lt bytes in
    let (set, byte) = bit_or-SetsBit b (p % 8) small (omega arith) in
    let (later, (done, same, small_later, here, elsewhere)) =
      store_byte-Stored bits (p / 8) (bit_or b (2 ^ (p % 8))) lt bytes byte in
    (
      later,
      (
        rw (there, done) refl,
        same,
        small_later,
        rw (here, set) refl,
        λ q h. elim (Bool-cases (q / 8 == p / 8)) [
          | inl e ↦
              let at : q / 8 ≡ p / 8 = ground arith in
              let held = test_bit-bit_set bits q b (ap (λ (i : ℕ). byte_at bits i) at ∙ there) h in
              rw (at, here, bit_or_kept b (p % 8) (q % 8) small (omega arith) (omega arith) held)
                refl
          | inr e ↦ rw (elsewhere (q / 8) (ground arith)) h
        ],
      ),
    )

pub probe-lt : (h : Bytes) (i m : ℕ) → 0 < m → probe h i m < m
unfolding probe
probe-lt h i m p = omega arith

-- What a filter holds, one with all its bits holds too.
contains_from-Kept :
    (f g : Bloom) (h : Bytes) (i rounds : ℕ)
    → g.m ≡ f.m
    → Kept f.bits g.bits
    → contains_from f h i rounds ≡ ok true
    → contains_from g h i rounds ≡ ok true
unfolding contains_from
contains_from-Kept f g h i zero same kept held = refl
contains_from-Kept f g h i (suc rounds) same kept held =
    let (b, hit, rest) = >>=-eq-ok (test_bit f.bits (probe h i f.m)) _ held in
    later b (λ e. contains_from-Kept f g h (i + 1) rounds same kept e) hit rest
  where
    later :
        (b : Bool)
        → (contains_from f h (i + 1) rounds ≡ ok true → contains_from g h (i + 1) rounds ≡ ok true)
        → test_bit f.bits (probe h i f.m) ≡ ok b
        → (elim b [ true ↦ contains_from f h (i + 1) rounds | false ↦ ok false ]) ≡ ok true
        → (test_bit g.bits (probe h i g.m) >>= λ (hit : Bool). elim hit [
          | true ↦ contains_from g h (i + 1) rounds
          | false ↦ ok false
        ])
          ≡ ok true
    later true again hit rest = rw (same, kept (probe h i f.m) hit) (again rest)
    later false again hit rest = cc

unfoldable pub Grown : Bloom → Bloom → Type 0
Grown f g = IsBloom g × (g.m ≡ f.m) × Kept f.bits g.bits

insert_from-Grown :
    (f : Bloom) (h : Bytes) (i rounds : ℕ)
    → IsBloom f
    → (g : Bloom) × ((insert_from f h i rounds ≡ ok g)
        × Grown f g
        × (contains_from g h i rounds ≡ ok true))
unfolding insert_from contains_from Grown SetAt
insert_from-Grown f h i zero sound = (f, (refl, (sound, refl, λ q hit. hit), refl))
insert_from-Grown f h i (suc rounds) sound =
    let (positive, small, room, bytes) = sound in
    let bound = probe-lt h i f.m positive in
    let (bits, (done, same, small_bits, set, kept)) =
      set_bit-SetAt f.bits (probe h i f.m) (omega arith) bytes in
    let next : Bloom = record { bits = bits; m = f.m } in
    let (g, (rest, (sound_g, same_m, kept_g), held)) =
      insert_from-Grown next h (i + 1) rounds (positive, small, same ∙ room, small_bits) in
    (
      g,
      (
        rw done rest,
        (sound_g, same_m, λ q hit. kept_g q (kept q hit)),
        rw (same_m, kept_g (probe h i f.m) set) held,
      ),
    )

insert-Grown :
    (f : Bloom) (h : Bytes)
    → IsBloom f
    → (g : Bloom) × ((insert f h ≡ ok g) × Grown f g × (maybe_contains g h ≡ ok true))
unfolding insert maybe_contains
insert-Grown f h sound = insert_from-Grown f h 0 hash_count sound

-- `insert` of each hash in turn.
unfoldable pub insert_all : Bloom → List Bytes → Result Bloom
insert_all f [] = ok f
insert_all f (h ∷ hs) = (insert f h >>= λ g. insert_all g hs)

pub insert_all-Grown :
    (f : Bloom) (hs : List Bytes)
    → IsBloom f
    → (g : Bloom) × ((insert_all f hs ≡ ok g)
        × Grown f g
        × All (λ h. maybe_contains g h ≡ ok true) hs)
unfolding insert_all maybe_contains Grown
insert_all-Grown f [] sound = (f, (refl, (sound, refl, λ q hit. hit), tt))
insert_all-Grown f (h ∷ hs) sound =
    let (g, (done, (sound_g, same, kept), held)) = insert-Grown f h sound in
    let (last, (rest, (sound_last, same_last, kept_last), all)) = insert_all-Grown g hs sound_g in
    (
      last,
      (
        rw done rest,
        (sound_last, same_last ∙ same, λ q hit. kept_last q (kept q hit)),
        (contains_from-Kept g last h 0 hash_count same_last kept_last held, all),
      ),
    )

-- Inserting hashes into a well-formed filter, a fresh one included, succeeds, without an index past
-- the end of its bits; the filter stays well-formed, its bit count stays the same, and it answers
-- true for every hash inserted and for every one of the hashes `held` that it answered true for
-- before.
pub insert_all-contains :
    (f : Bloom) (held hs : List Bytes)
    → IsBloom f
    → All (λ x. maybe_contains f x ≡ ok true) held
    → (g : Bloom) × ((insert_all f hs ≡ ok g)
        × IsBloom g
        × (g.m ≡ f.m)
        × All (λ x. maybe_contains g x ≡ ok true) hs
        × All (λ x. maybe_contains g x ≡ ok true) held)
unfolding maybe_contains Grown
insert_all-contains f held hs sound before =
    let (g, (done, (sound_g, same, kept), all)) = insert_all-Grown f hs sound in
    (g, (done, sound_g, same, all, still g same kept held before))
  where
    still :
        (g : Bloom)
        → g.m ≡ f.m
        → Kept f.bits g.bits
        → (xs : List Bytes) → All (λ x. maybe_contains f x ≡ ok true) xs
        → All (λ x. maybe_contains g x ≡ ok true) xs
    still g same kept [] h = tt
    still g same kept (x ∷ xs) h =
        (contains_from-Kept f g x 0 hash_count same kept h.0, still g same kept xs h.1)
