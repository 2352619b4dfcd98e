-- ===== src/Varint/RoundTrip.antt =====
-- `get_varint` after `put_varint`.
use native.Mathlib.Nat.{div-add-mod}
use native.Mathlib.Numerals.{towards_suc}
use turndb.Shared.{
  ℕ, zero, suc, ◌+◌, ◌*◌, ◌/◌, ◌%◌, ◌^◌, ◌<◌, ◌≡◌, ◌≢◌, ap, ◌∙◌, List, ◌∷◌, ◌++◌, inl, inr, arith,
  ok,
}
use turndb.Shared.Bits.{IsU64, bit_and_7f, bit_and_80, bit_and_fe, bit_or_above}
use turndb.Varint.Defs.{get_varint_rounds, get_varint, varint}
use turndb.Varint.Bounds.{varint_cases}

-- The seven bits of one byte and what is above them, both shifted by `s`.
pub seven_bits : (w s : ℕ) → w * 2 ^ s ≡ w % 128 * 2 ^ s + w / 128 * (128 * 2 ^ s)
seven_bits w s = omega (arith, ap (λ (t : ℕ). t * 2 ^ s) (div-add-mod w 128))

pub next_shift : (index : ℕ) → 2 ^ ((index + 1) * 7) ≡ 128 * 2 ^ (index * 7)
next_shift index =
    let e : (index + 1) * 7 ≡ index * 7 + 7 = omega arith in rw e (simp towards_suc (omega arith))

pub group_fits : (p v g : ℕ) → v < p → g < 128 → v + g * p < 128 * p
group_fits p v g fits small = grind arith

pub room_left : (index w : ℕ) → w / 128 * 2 ^ ((index + 1) * 7) ≡ w / 128 * (128 * 2 ^ (index * 7))
room_left index w = ap (λ (t : ℕ). w / 128 * t) (next_shift index)

-- At the tenth byte only one bit is left of a u64, and none behind it.
pub tenth_byte : (index w : ℕ) → index ≡ 9 → w * 2 ^ (index * 7) < 2 ^ 64 → w < 2
tenth_byte index w e h = omega (arith, rw e at h)

pub eleventh_byte : (index w : ℕ) → index ≡ 10 → w * 2 ^ (index * 7) < 2 ^ 64 → w ≡ 0
eleventh_byte index w e h = omega (arith, rw e at h)

module _ (rounds index v : ℕ) (rest : List ℕ) (fits : v < 2 ^ (index * 7)) where
  -- One round on a final byte, and one on a byte with the continuation bit over the group `g`.
  pub last_round :
      (w : ℕ)
      → w < 128
      → (index ≡ 9 → w < 2)
      → (0 < index → 0 < w)
      → w * 2 ^ (index * 7) < 2 ^ 64
      → get_varint_rounds (suc rounds) index v (w ∷ rest) ≡ ok (v + w * 2 ^ (index * 7), rest)
  unfolding get_varint_rounds
  last_round w small tenth minimal room =
      ground (arith, bit_and_7f w, bit_and_80 w, bit_and_fe w, bit_or_above (index * 7) v w fits)

  pub inner_round :
      (g : ℕ)
      → g < 128
      → index ≢ 9
      → g * 2 ^ (index * 7) < 2 ^ 64
      → get_varint_rounds (suc rounds) index v ((g + 128) ∷ rest)
        ≡ get_varint_rounds rounds (index + 1) (v + g * 2 ^ (index * 7)) rest
  unfolding get_varint_rounds
  inner_round g small before room =
      ground (arith, bit_and_7f (g + 128), bit_and_80 (g + 128), bit_or_above (index * 7) v g fits)

pub get_varint_rounds-varint :
    (rounds index v w : ℕ) (rest : List ℕ)
    → index + rounds ≡ 10
    → v < 2 ^ (index * 7)
    → w * 2 ^ (index * 7) < 2 ^ 64
    → (0 < index → 0 < w)
    → get_varint_rounds rounds index v (varint w ++ rest) ≡ ok (v + w * 2 ^ (index * 7), rest)
get_varint_rounds-varint zero index v w rest e fits room minimal =
    absurd (omega (arith, eleventh_byte index w (omega arith) room, minimal (omega arith)))
get_varint_rounds-varint (suc rounds) index v w rest e fits room minimal = elim (varint_cases w) [
  | inl (small, f) ↦
      rw f
        (last_round rounds index v rest fits w small (λ t. tenth_byte index w t room) minimal room)
  | inr (large, f) ↦ rw f (
      inner_round rounds index v (varint (w / 128) ++ rest) fits (w % 128) (omega arith)
        (λ t. omega (arith, tenth_byte index w t room)) (omega (arith, seven_bits w (index * 7)))
      ∙ get_varint_rounds-varint rounds (index + 1) (v + w % 128 * 2 ^ (index * 7)) (w / 128) rest
          (omega arith)
          (omega
            (arith, group_fits (2 ^ (index * 7)) v (w % 128) fits (omega arith), next_shift index))
          (omega (arith, seven_bits w (index * 7), room_left index w)) (λ _. omega arith)
      ∙ ap (λ (t : ℕ). ok (t, rest)) (omega (arith, seven_bits w (index * 7), room_left index w)))
]

-- Reading back what `put_varint` wrote for a u64 returns the value and leaves what follows it.
pub get-put_varint :
    (v : ℕ) (rest : List ℕ) → IsU64 v → get_varint (varint v ++ rest) ≡ ok (v, rest)
unfolding get_varint
get-put_varint v rest h =
    get_varint_rounds-varint 10 0 0 v rest (omega arith) (omega arith) (omega arith)
      (λ z. absurd (omega arith))
    ∙ ap (λ (t : ℕ). ok (t, rest)) (omega arith)
