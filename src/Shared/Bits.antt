-- ===== src/Shared/Bits.antt =====
-- `|`, `&` and shifts on unsigned words, as arithmetic.
use Prim.Native.Nat.{
  ℕ, zero, suc, ◌+◌, ◌-◌, ◌*◌, ◌/◌, ◌%◌, ◌^◌, ◌≤◌, ◌<◌, min, max, bit_and, bit_or,
}
use Prim.Native.Nat.{digits, bit_and-bitwise, bit_or-bitwise}
use mathlib.Core.Path.{◌≡◌, refl, sym, ap, ◌∙◌}
use mathlib.Core.Bool.{Bool, true, ◌&&◌}
use native.Mathlib.Omega.{arith}
use native.Mathlib.Decide.{dec_lt}
use native.Mathlib.Nat.{
  pow-suc, div-add-mod', mod-lt, mod-eq_of_lt, add-mul-mod_self_right, mul_assoc,
}
use turndb.Shared.Tests.{◌==◌, ==_iff}

abbrev pub IsByte : ℕ → Type 0
IsByte b = b < 256

abbrev pub IsU32 : ℕ → Type 0
IsU32 v = v < 2 ^ 32

abbrev pub IsU64 : ℕ → Type 0
IsU64 v = v < 2 ^ 64

-- A property of every byte, checked by evaluation.
unfoldable pub agrees : ℕ → (ℕ → Bool) → Bool
agrees zero p = true
agrees (suc n) p = p n && agrees n p

pub agrees→holds : (n : ℕ) (p : ℕ → Bool) (x : ℕ) → agrees n p ≡ true → x < n → p x ≡ true
unfolding agrees
agrees→holds zero p x h l = absurd (omega arith)
agrees→holds (suc n) p x h l = ground (arith, agrees→holds n p x)

module _ (f g : ℕ → ℕ) where
  same_below : (n : ℕ) → agrees n (λ x. f x == g x) ≡ true → (x : ℕ) → x < n → f x ≡ g x
  same_below n h x l = (==_iff (f x) (g x)).0 (agrees→holds n (λ y. f y == g y) x h l)

pub bit_and_7f : (b : ℕ) → IsByte b → bit_and b 0x7f ≡ b % 128
unfolding agrees
bit_and_7f = same_below _ _ 256 refl

pub bit_and_80 : (b : ℕ) → IsByte b → bit_and b 0x80 ≡ b / 128 * 128
unfolding agrees
bit_and_80 = same_below _ _ 256 refl

pub bit_and_fe : (b : ℕ) → IsByte b → bit_and b 0xfe ≡ b / 2 * 2
unfolding agrees
bit_and_fe = same_below _ _ 256 refl

pub bit_or_80 : (b : ℕ) → IsByte b → bit_or b 0x80 ≡ b % 128 + 128
unfolding agrees
bit_or_80 = same_below _ _ 256 refl

-- A spare round of the recursion behind the native operations changes nothing.
module _ (rest : ℕ → ℕ) (digit : ℕ → ℕ → ℕ) where
  spare_round : (n a b : ℕ) → a ≤ n → digits rest digit (suc n) a b ≡ digits rest digit n a b
  spare_round n zero b le = last n
    where
      last : (k : ℕ) → rest b ≡ digits rest digit k 0 b
      last zero = refl
      last (suc k) = refl
  spare_round zero (suc a) b le = elim le [ ]
  spare_round (suc n) (suc a) b le =
      let shorter = spare_round n (suc a / 2) (b / 2) (omega arith) in
      ap (λ (high : ℕ). high * 2 + digit (suc a % 2) (b % 2)) shorter

  spare_rounds : (k n a b : ℕ) → a ≤ n → digits rest digit (k + n) a b ≡ digits rest digit n a b
  spare_rounds zero n a b le = ap (λ (m : ℕ). digits rest digit m a b) {y = n} (omega arith)
  spare_rounds (suc k) n a b le =
      ap (λ (m : ℕ). digits rest digit m a b) {y = suc (k + n)} (omega arith)
      ∙ spare_round (k + n) a b (omega arith)
      ∙ spare_rounds k n a b le

  -- Half of the count of rounds is enough for half of the number.
  half_rounds :
      (a b : ℕ) → digits rest digit a (suc a / 2) b ≡ digits rest digit (suc a / 2) (suc a / 2) b
  half_rounds a b =
      let half : ℕ = suc a / 2 in
      ap (λ (m : ℕ). digits rest digit m half b) {y = a - half + half} (omega arith)
      ∙ spare_rounds (a - half) half half b (omega arith)

zero-bit_or : (b : ℕ) → bit_or 0 b ≡ b
zero-bit_or b = bit_or-bitwise 0 b

bit_or_halves : (a b : ℕ) → bit_or a b ≡ bit_or (a / 2) (b / 2) * 2 + max (a % 2) (b % 2)
bit_or_halves zero b = omega (arith, zero-bit_or b, zero-bit_or (b / 2))
bit_or_halves (suc a) b = omega (
  arith,
  bit_or-bitwise (suc a) b,
  bit_or-bitwise (suc a / 2) (b / 2),
  half_rounds (λ y. y) max a (b / 2),
)

zero_mask : (b : ℕ) → bit_and 0 b ≡ 0
zero_mask b = bit_and-bitwise 0 b

bit_and_halves : (a b : ℕ) → bit_and a b ≡ bit_and (a / 2) (b / 2) * 2 + min (a % 2) (b % 2)
bit_and_halves zero b = omega (arith, zero_mask b, zero_mask (b / 2))
bit_and_halves (suc a) b =
    let short = half_rounds (λ y. zero) min a (b / 2) in
    omega (arith, bit_and-bitwise (suc a) b, bit_and-bitwise (suc a / 2) (b / 2), short)

mask_nothing : (n a : ℕ) → a ≤ n → bit_and a 0 ≡ 0
mask_nothing zero a h = let e : a ≡ 0 = omega arith in rw e (zero_mask 0)
mask_nothing (suc n) a h = elim (dec_lt 0 a) [
  | yes p ↦ omega (arith, bit_and_halves a 0, mask_nothing n (a / 2) (omega arith))
  | no q ↦ let e : a ≡ 0 = omega arith in rw e (zero_mask 0)
]

-- The remainder by a doubled modulus keeps the lowest digit.
mod_doubled : (a m : ℕ) → 0 < m → a % (m * 2) ≡ a / 2 % m * 2 + a % 2
mod_doubled a m p =
    let half = div-add-mod' (a / 2) m in
    let small = mod-lt (a / 2) p in
    let whole : a ≡ (a / 2 % m * 2 + a % 2) + a / 2 / m * (m * 2) =
      omega (arith, half, sym (mul_assoc (a / 2 / m) m 2)) in
    ap (λ (n : ℕ). n % (m * 2)) whole
    ∙ add-mul-mod_self_right (a / 2 % m * 2 + a % 2) (a / 2 / m) (m * 2)
    ∙ mod-eq_of_lt (omega arith)

pub two_pow_pos : (k : ℕ) → 0 < 2 ^ k
two_pow_pos zero = omega arith
two_pow_pos (suc k) = omega (arith, two_pow_pos k, pow-suc 2 k)

-- `& mask`, for a mask of `k` ones.
pub bit_and_mask : (k a : ℕ) → bit_and a (2 ^ k - 1) ≡ a % 2 ^ k
bit_and_mask zero a = mask_nothing a a (omega arith) ∙ omega arith
bit_and_mask (suc k) a =
    let positive = two_pow_pos k in
    let double = pow-suc 2 k in
    let high : (2 ^ suc k - 1) / 2 ≡ 2 ^ k - 1 = omega arith in
    let low : (2 ^ suc k - 1) % 2 ≡ 1 = omega arith in
    let tail = bit_and_mask k (a / 2) in
    let halves = bit_and_halves a (2 ^ suc k - 1) in
    let rest = ap (λ (n : ℕ). bit_and (a / 2) n) high in
    omega
      (arith, ap (λ (n : ℕ). a % n) double, mod_doubled a (2 ^ k) positive, halves, rest, low, tail)

-- `low | (high << s)` is a sum when `low` has only the lower `s` bits.
pub bit_or_above : (s low high : ℕ) → low < 2 ^ s → bit_or low (high * 2 ^ s) ≡ low + high * 2 ^ s
bit_or_above zero low high h =
    let e : low ≡ 0 = omega arith in ground (arith, zero-bit_or (high * 1), e)
bit_or_above (suc s) low high h = ground (
  arith,
  bit_or_halves low (high * 2 ^ suc s),
  pow-suc 2 s,
  ap (λ (t : ℕ). high * t) (pow-suc 2 s),
  bit_or_above s (low / 2) high (omega (arith, pow-suc 2 s)),
)
