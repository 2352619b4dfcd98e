-- ===== src/Bloom/Bits.antt =====
-- Setting one bit of a byte.
use turndb.Shared.{ℕ, ◌^◌, ◌<◌, ◌≡◌, refl, Bool, true, not, ◌&&◌, ◌||◌, ltb, bit_or, arith}
use turndb.Shared.Bits.{IsByte, agrees, agrees→holds}
use turndb.Bloom.Defs.{bit_set}

-- Bit `j` is set, the other bits stay set, and the result is a byte.
pair_holds : ℕ → ℕ → ℕ → Bool
pair_holds b j k =
    (not (bit_set b k) || bit_set (bit_or b (2 ^ j)) k)
    && (bit_set (bit_or b (2 ^ j)) j && ltb (bit_or b (2 ^ j)) 256)

table : agrees 256 (λ b. agrees 8 (λ j. agrees 8 (λ k. pair_holds b j k))) ≡ true
unfolding agrees pair_holds
table = refl

pair_at : (b j k : ℕ) → IsByte b → j < 8 → k < 8 → pair_holds b j k ≡ true
pair_at b j k p q r = agrees→holds 8 _ k (agrees→holds 8 _ j (agrees→holds 256 _ b table p) q) r

-- What setting the bit `j` of the byte `b` makes of it.
abbrev pub SetsBit : ℕ → ℕ → Type 0
SetsBit b j = (bit_set (bit_or b (2 ^ j)) j ≡ true) × IsByte (bit_or b (2 ^ j))

pub bit_or-SetsBit : (b j : ℕ) → IsByte b → j < 8 → SetsBit b j
unfolding pair_holds
bit_or-SetsBit b j p q = let h = pair_at b j 0 p q (omega arith) in ground arith

pub bit_or_kept :
    (b j k : ℕ)
    → IsByte b
    → j < 8
    → k < 8
    → bit_set b k ≡ true
    → bit_set (bit_or b (2 ^ j)) k ≡ true
unfolding pair_holds
bit_or_kept b j k p q r s = let h = pair_at b j k p q r in ground arith
