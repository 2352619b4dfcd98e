-- ===== src/Varint/Truncated.antt =====
-- `get_varint` on a slice that ends inside an encoding.
use turndb.Shared.{
  ℕ, zero, suc, ◌+◌, ◌*◌, ◌/◌, ◌%◌, ◌^◌, ◌<◌, ◌≡◌, refl, sym, ap, ◌∙◌, List, [], ◌∷◌, ◌++◌, inl,
  inr, arith, err, varint_truncated, length, length-append,
}
use turndb.Shared.Bits.{IsU64}
use turndb.Varint.Defs.{get_varint_rounds, get_varint, varint}
use turndb.Varint.Bounds.{varint_cases}
use turndb.Varint.RoundTrip.{
  inner_round, tenth_byte, eleventh_byte, seven_bits, group_fits, next_shift, room_left,
}

tail : List ℕ → List ℕ
tail [] = []
tail (y ∷ ys) = ys

head : List ℕ → ℕ
head [] = 0
head (y ∷ ys) = y

get_varint_rounds_truncated :
    (rounds index v w x : ℕ) (front back : List ℕ)
    → index + rounds ≡ 10
    → v < 2 ^ (index * 7)
    → w * 2 ^ (index * 7) < 2 ^ 64
    → (0 < index → 0 < w)
    → varint w ≡ front ++ (x ∷ back)
    → get_varint_rounds rounds index v front ≡ err varint_truncated
get_varint_rounds_truncated zero index v w x front back e fits room minimal f =
    absurd (omega (arith, eleventh_byte index w (omega arith) room, minimal (omega arith)))
get_varint_rounds_truncated (suc rounds) index v w x [] back e fits room minimal f =
    unfold get_varint_rounds in refl
get_varint_rounds_truncated (suc rounds) index v w x (y ∷ front) back e fits room minimal f =
    elim (varint_cases w) [
      | inl (small, g) ↦ absurd (
          omega
            (arith, ap (λ (t : List ℕ). length t) (sym g ∙ f), length-append {0} front (x ∷ back)))
      | inr (large, g) ↦
          let first : y ≡ w % 128 + 128 = unfold head in ap head (sym f ∙ g) in
          rw first (
            inner_round rounds index v front fits (w % 128) (omega arith)
              (λ t. omega (arith, tenth_byte index w t room))
              (omega (arith, seven_bits w (index * 7)))
            ∙ get_varint_rounds_truncated rounds (index + 1) (v + w % 128 * 2 ^ (index * 7))
                (w / 128) x front back (omega arith)
                (omega (
                  arith,
                  group_fits (2 ^ (index * 7)) v (w % 128) fits (omega arith),
                  next_shift index,
                ))
                (omega (arith, seven_bits w (index * 7), room_left index w)) (λ _. omega arith)
                (unfold tail in ap tail (sym g ∙ f)))
    ]

-- Every proper prefix of what `put_varint` writes for a u64 is refused as truncated.
pub get_varint_truncated :
    (v x : ℕ) (front back : List ℕ)
    → IsU64 v
    → varint v ≡ front ++ (x ∷ back)
    → get_varint front ≡ err varint_truncated
unfolding get_varint
get_varint_truncated v x front back h e =
    get_varint_rounds_truncated 10 0 0 v x front back (omega arith) (omega arith) (omega arith)
      (λ z. absurd (omega arith)) e
