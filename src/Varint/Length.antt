-- ===== src/Varint/Length.antt =====
-- The three functions that size a varint before it is written: `varint_len` of
-- src/part/builder.rs, `varint_bytes` of src/store/mod.rs and `varint_len` of src/container.rs.
use mathlib.Core.Logic.{dite, dif_pos, dif_neg}
use mathlib.Core.WellFounded.{Acc}
use native.Mathlib.Decide.{dec_le}
use native.Mathlib.Bridge.{le_prop}
use native.Mathlib.Nat.{pow-suc}
use turndb.Shared.{
  ℕ, zero, suc, ◌+◌, ◌-◌, ◌*◌, ◌/◌, ◌^◌, ◌≤◌, ◌<◌, ◌≡◌, ap, inl, inr, max, arith, length, ◌==◌,
  if◌then◌else◌,
}
use turndb.Shared.Order.{lt_wf}
use turndb.Shared.Bits.{IsU64}
use turndb.Varint.Defs.{varint, shift_shrinks}
use turndb.Varint.Bounds.{varint_cases}

-- `let mut bytes = 1; while value >= 0x80 { value >>= 7; bytes += 1; }`, in both files.
varint_bytes_loop : (value : ℕ) → Acc ◌<◌ value → ℕ → ℕ
varint_bytes_loop value (Acc.intro _ smaller) bytes =
    dite (dec_le 0x80 value)
      (λ more. varint_bytes_loop (value / 2 ^ 7) (smaller _ (shift_shrinks value more)) (bytes + 1))
      (λ _. bytes)

unfoldable pub varint_bytes : ℕ → ℕ
unfolding varint_bytes_loop lt_wf dec_le
varint_bytes value = varint_bytes_loop value (lt_wf.apply value) 1

-- The position above the highest set bit, and `u64::leading_zeros` by it.
bit_len : ℕ → ℕ → ℕ
bit_len zero v = 0
bit_len (suc width) v = if v == 0 then 0 else suc (bit_len width (v / 2))

leading_zeros : ℕ → ℕ
leading_zeros v = 64 - bit_len 64 v

-- `((64 - value.leading_zeros()).max(1) as u64).div_ceil(7)`
unfoldable pub varint_len : ℕ → ℕ
unfolding leading_zeros bit_len
varint_len value = (max (64 - leading_zeros value) 1 + 6) / 7

varint_bytes_loop-length :
    (n v : ℕ) (w : Acc ◌<◌ v) (bytes : ℕ)
    → v < n
    → varint_bytes_loop v w bytes + 1 ≡ bytes + length (varint v)
unfolding varint_bytes_loop
varint_bytes_loop-length zero v w bytes h = elim h [ ]
varint_bytes_loop-length (suc n) v (Acc.intro _ s) bytes h = elim (varint_cases v) [
  | inl (small, e) ↦ rw (e, dif_neg (dec_le 0x80 v) (λ k. omega arith) _ _) (omega arith)
  | inr (large, e) ↦
      rw (e, dif_pos (dec_le 0x80 v) le_prop large _ _)
        (omega (
          arith,
          varint_bytes_loop-length n (v / 128) (s _ (shift_shrinks v large)) (bytes + 1)
              (omega arith),
        ))
]

-- The loop of src/store/mod.rs counts the bytes that `put_varint` writes.
pub varint_bytes-length : (v : ℕ) → varint_bytes v ≡ length (varint v)
unfolding varint_bytes
varint_bytes-length v =
    omega (arith, varint_bytes_loop-length (suc v) v (lt_wf.apply v) 1 (omega arith))

bit_len_bound : (width k v : ℕ) → v < 2 ^ k → bit_len width v ≤ k
unfolding bit_len
bit_len_bound zero k v h = omega arith
bit_len_bound (suc width) zero v h = ground arith
bit_len_bound (suc width) (suc k) v h =
    ground (arith, bit_len_bound width k (v / 2) (omega (arith, pow-suc 2 k)))

bit_len_half : (width v : ℕ) → 0 < v → bit_len (suc width) v ≡ suc (bit_len width (v / 2))
unfolding bit_len
bit_len_half width v h = ground arith

bit_len_pos : (width v : ℕ) → 0 < v → 0 < bit_len (suc width) v
bit_len_pos width v h = rw (bit_len_half width v h) (omega arith)

bit_len_seven :
    (width v : ℕ)
    → 128 ≤ v
    → bit_len (suc (suc (suc (suc (suc (suc (suc width))))))) v ≡ 7 + bit_len width (v / 128)
bit_len_seven width v h = omega (
  arith,
  bit_len_half (suc (suc (suc (suc (suc (suc width)))))) v (omega arith),
  bit_len_half (suc (suc (suc (suc (suc width))))) (v / 2) (omega arith),
  bit_len_half (suc (suc (suc (suc width)))) (v / 2 / 2) (omega arith),
  bit_len_half (suc (suc (suc width))) (v / 2 / 2 / 2) (omega arith),
  bit_len_half (suc (suc width)) (v / 2 / 2 / 2 / 2) (omega arith),
  bit_len_half (suc width) (v / 2 / 2 / 2 / 2 / 2) (omega arith),
  bit_len_half width (v / 2 / 2 / 2 / 2 / 2 / 2) (omega arith),
  ap (λ (x : ℕ). bit_len width x) same,
)
  where
    same : v / 2 / 2 / 2 / 2 / 2 / 2 / 2 ≡ v / 128
    same = omega arith

seven_more : (n : ℕ) → 2 ^ suc (suc (suc (suc (suc (suc (suc n)))))) ≡ 128 * 2 ^ n
seven_more n = simp pow-suc (omega arith)

-- `k` groups of seven bits and one bit more.
varint_groups :
    (k v : ℕ) → v < 2 ^ suc (k * 7) → (max (bit_len (suc (k * 7)) v) 1 + 6) / 7 ≡ length (varint v)
varint_groups zero v h = elim (varint_cases v) [
  | inl (small, e) ↦ rw e (omega (arith, bit_len_bound 1 1 v h))
  | inr (large, e) ↦ absurd (omega arith)
]
varint_groups (suc k) v h = elim (varint_cases v) [
  | inl (small, e) ↦ rw e (omega (arith, bit_len_bound (suc (suc k * 7)) 7 v small))
  | inr (large, e) ↦
      let wide : suc (suc k * 7) ≡ suc (suc (suc (suc (suc (suc (suc (suc (k * 7)))))))) =
        omega arith in
      rw (e, wide)
        (omega (
          arith,
          bit_len_seven (suc (k * 7)) v large,
          bit_len_pos (k * 7) (v / 128) (omega arith),
          varint_groups k (v / 128) (omega (arith, rw wide at h, seven_more (suc (k * 7)))),
        ))
]

-- The closed form of src/container.rs is the length of what `put_varint` writes for a u64.
pub varint_len-length : (v : ℕ) → IsU64 v → varint_len v ≡ length (varint v)
unfolding varint_len
varint_len-length v h = omega (arith, varint_groups 9 v h, bit_len_bound 64 64 v h)
