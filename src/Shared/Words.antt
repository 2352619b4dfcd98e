-- ===== src/Shared/Words.antt =====
-- `to_le_bytes` and `from_le_bytes` of the fixed-width integers.
use Prim.Native.Nat.{ℕ, zero, suc, ◌+◌, ◌*◌, ◌/◌, ◌%◌, ◌^◌, ◌<◌}
use mathlib.Core.Path.{◌≡◌, refl, ap, ap₂}
use mathlib.Core.List.{List, [], ◌∷◌}
use native.Mathlib.Omega.{arith}
use native.Mathlib.Nat.{pow-suc}
use turndb.Shared.Lists.{length, All}
use turndb.Shared.Bits.{IsByte}

unfoldable pub to_le_bytes : ℕ → ℕ → List ℕ
to_le_bytes zero v = []
to_le_bytes (suc width) v = (v % 2 ^ 8) ∷ to_le_bytes width (v / 2 ^ 8)

unfoldable pub from_le_bytes : List ℕ → ℕ
from_le_bytes [] = 0
from_le_bytes (b ∷ bs) = b + 2 ^ 8 * from_le_bytes bs

pub length-to_le_bytes : (width v : ℕ) → length (to_le_bytes width v) ≡ width
unfolding to_le_bytes
length-to_le_bytes zero v = refl
length-to_le_bytes (suc width) v = ap suc (length-to_le_bytes width (v / 2 ^ 8))

pub to_le_bytes-IsByte : (width v : ℕ) → All IsByte (to_le_bytes width v)
unfolding to_le_bytes
to_le_bytes-IsByte zero v = tt
to_le_bytes-IsByte (suc width) v = (omega arith, to_le_bytes-IsByte width (v / 2 ^ 8))

pub from-to_le_bytes : (width v : ℕ) → v < 256 ^ width → from_le_bytes (to_le_bytes width v) ≡ v
unfolding to_le_bytes from_le_bytes
from-to_le_bytes zero v h = omega arith
from-to_le_bytes (suc width) v h =
    omega (arith, from-to_le_bytes width (v / 2 ^ 8) (omega (arith, pow-suc 256 width)))

pub to-from_le_bytes :
    (bs : List ℕ) → All IsByte bs → to_le_bytes (length bs) (from_le_bytes bs) ≡ bs
unfolding to_le_bytes from_le_bytes
to-from_le_bytes [] h = refl
to-from_le_bytes (b ∷ bs) h =
    let rest : (b + 256 * from_le_bytes bs) / 256 ≡ from_le_bytes bs = omega (arith, h.0) in
    ap₂ (λ (x : ℕ) (y : List ℕ). x ∷ y) (omega (arith, h.0)) (rw rest (to-from_le_bytes bs h.1))

pub from_le_bytes-lt : (bs : List ℕ) → All IsByte bs → from_le_bytes bs < 256 ^ length bs
unfolding from_le_bytes
from_le_bytes-lt [] h = omega arith
from_le_bytes-lt (b ∷ bs) h =
    rw (pow-suc 256 (length bs)) (omega (arith, h.0, from_le_bytes-lt bs h.1))
