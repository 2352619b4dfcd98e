-- ===== src/Varint/Canonical.antt =====
-- What `get_varint` accepts: the encoding of the value that it returns, and nothing else.
use native.Mathlib.Nat.{pow-le-pow_right}
use native.Mathlib.Decide.{dec_lt}
use turndb.Shared.{
  ℕ, zero, suc, ◌+◌, ◌*◌, ◌/◌, ◌%◌, ◌^◌, ◌≤◌, ◌<◌, ◌≡◌, sym, ap, ap₂, ◌∙◌, List, [], ◌∷◌, ◌++◌, inl,
  inr, arith, ok, All, ◌⊎◌,
}
use turndb.Shared.Bits.{IsByte, IsU64, bit_and_7f, bit_and_80, bit_and_fe, bit_or_above}
use turndb.Varint.Defs.{get_varint_rounds, get_varint, varint}
use turndb.Varint.Bounds.{varint_small, varint_large}
use turndb.Varint.RoundTrip.{next_shift, group_fits}

-- Up to the ninth byte all seven bits fit a u64, at the tenth one.
shift_small : (index : ℕ) → index < 9 → 2 ^ (index * 7) ≤ 2 ^ 56
shift_small index h = pow-le-pow_right {n = 2} (omega arith) {j = 56} (omega arith)

shift_tenth : (index : ℕ) → index ≡ 9 → 2 ^ (index * 7) ≡ 2 ^ 63
shift_tenth index e = rw e

payload_fits :
    (index g : ℕ) → index < 10 → g < 128 → (index ≡ 9 → g < 2) → (g + 1) * 2 ^ (index * 7) ≤ 2 ^ 64
payload_fits index g h small tenth = elim (dec_lt index 9) [
  | yes p ↦ grind (arith, shift_small index p)
  | no p ↦ grind (arith, shift_tenth index (omega arith), tenth (omega arith))
]

-- What one accepted byte says of the number: it is final, or the rest is accepted behind it.
round_cases :
    (rounds index v byte : ℕ) (b : List ℕ) {r : ℕ} {rest : List ℕ}
    → IsByte byte
    → index < 10
    → v < 2 ^ (index * 7)
    → get_varint_rounds (suc rounds) index v (byte ∷ b) ≡ ok (r, rest)
    → ((byte % 128 + 1) * 2 ^ (index * 7) ≤ 2 ^ 64)
      × (((byte < 128) × (0 < index → 0 < byte) × (r ≡ v + byte * 2 ^ (index * 7)) × (b ≡ rest))
          ⊎ ((128 ≤ byte)
              × (get_varint_rounds rounds (index + 1) (v + byte % 128 * 2 ^ (index * 7)) b
                  ≡ ok (r, rest))))
unfolding get_varint_rounds
round_cases rounds index v byte b h before fits e = (
  room,
  ground (
    arith,
    room,
    bit_and_7f byte h,
    bit_and_80 byte h,
    bit_or_above (index * 7) v (byte % 128) fits,
  ),
)
  where
    room : (byte % 128 + 1) * 2 ^ (index * 7) ≤ 2 ^ 64
    room =
        payload_fits index (byte % 128) before (omega arith)
          (λ t. ground (arith, bit_and_fe byte h))

-- `b` starts with the encoding of a number `w`, which the bits of `r` above `index` groups are.
record Encodes (index v : ℕ) (b : List ℕ) (r : ℕ) (rest : List ℕ) : Type 0 where
  w : ℕ
  bytes : b ≡ varint w ++ rest
  value : r ≡ v + w * 2 ^ (index * 7)
  minimal : 0 < index → 0 < w
  fits : (w + 1) * 2 ^ (index * 7) ≤ 2 ^ 64

room_grows : (p g w : ℕ) → g < 128 → (g + w * 128 + 1) * p ≤ (w + 1) * (128 * p)
room_grows p g w h = let low : (g + 1) * p ≤ 128 * p = grind arith in omega arith

-- A byte with the continuation bit before an encoding is an encoding.
Encodes-cons :
    (index v byte : ℕ) (b : List ℕ) {r : ℕ} {rest : List ℕ}
    → IsByte byte
    → 128 ≤ byte
    → Encodes (index + 1) (v + byte % 128 * 2 ^ (index * 7)) b r rest
    → Encodes index v (byte ∷ b) r rest
Encodes-cons index v byte b {rest = rest} h large t =
    let low : byte ≡ (byte % 128 + t.w * 128) % 128 + 128 = omega arith in
    let high : (byte % 128 + t.w * 128) / 128 ≡ t.w = omega arith in
    record {
      w = byte % 128 + t.w * 128;
      bytes =
          ap₂ (λ (x : ℕ) (y : List ℕ). x ∷ y) low
            (t.bytes ∙ ap (λ (x : ℕ). varint x ++ rest) (sym high))
          ∙ ap (λ (y : List ℕ). y ++ rest)
              (sym
                (varint_large (byte % 128 + t.w * 128) (omega (arith, t.minimal (omega arith)))));
      value = omega (arith, t.value, ap (λ (x : ℕ). t.w * x) (next_shift index));
      minimal = λ _. omega (arith, t.minimal (omega arith));
      fits = omega (
        arith,
        t.fits,
        ap (λ (x : ℕ). (t.w + 1) * x) (next_shift index),
        room_grows (2 ^ (index * 7)) (byte % 128) t.w (omega arith),
      );
    }

get_varint_rounds_sound :
    (rounds index v : ℕ) (b : List ℕ) {r : ℕ} {rest : List ℕ}
    → All IsByte b
    → index + rounds ≡ 10
    → v < 2 ^ (index * 7)
    → get_varint_rounds rounds index v b ≡ ok (r, rest)
    → Encodes index v b r rest
get_varint_rounds_sound zero index v b h e fits f = unfold get_varint_rounds in cc
get_varint_rounds_sound (suc rounds) index v [] h e fits f = unfold get_varint_rounds in cc
get_varint_rounds_sound (suc rounds) index v (byte ∷ b) {r} {rest} h e fits f =
    let (room, next) = round_cases rounds index v byte b h.0 (omega arith) fits f in
    elim next [
      | inl (small, minimal, value, same) ↦ record {
        w = byte;
        bytes = rw (varint_small byte small, same);
        value = value;
        minimal = minimal;
        fits = ground (arith, room);
      }
      | inr (large, more) ↦ Encodes-cons index v byte b h.0 large (
          get_varint_rounds_sound rounds (index + 1) (v + byte % 128 * 2 ^ (index * 7)) b h.1
            (omega arith)
            (omega (
              arith,
              group_fits (2 ^ (index * 7)) v (byte % 128) fits (omega arith),
              next_shift index,
            ))
            more)
    ]

-- Of a slice of bytes `get_varint` accepts the canonical encoding of a u64 and nothing else: what
-- it consumed is what `put_varint` writes for the value that it returned.
pub get_varint-canonical :
    (b : List ℕ) (v : ℕ) (rest : List ℕ)
    → All IsByte b
    → get_varint b ≡ ok (v, rest)
    → (b ≡ varint v ++ rest) × IsU64 v
unfolding get_varint
get_varint-canonical b v rest h e =
    let t = get_varint_rounds_sound 10 0 0 b h (omega arith) (omega arith) e in
    let same : t.w ≡ v = omega (arith, t.value) in
    (t.bytes ∙ ap (λ (x : ℕ). varint x ++ rest) same, omega (arith, t.fits))
