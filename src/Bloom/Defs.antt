-- ===== src/Bloom/Defs.antt =====
-- The filter. An index past the end of the bit array is a panic of the code.
use turndb.Shared.{
  ℕ, zero, suc, ◌+◌, ◌-◌, ◌*◌, ◌/◌, ◌%◌, ◌^◌, max, Bool, true, false, not, ◌==◌, ◌||◌, ltb,
  if◌then◌else◌, [], ◌∷◌, ◌++◌, length, take, drop, replicate, Bytes, bit_and, bit_or, Result, ok,
  err, ◌>>=◌, ◌>>◌, bail_if, bloom_overflow, bloom_truncated, bloom_size, partial_identity,
  bloom_parameters, bloom_false_negative, index_out_of_bounds,
}
use turndb.Shared.Words.{to_le_bytes, from_le_bytes}

-- `BITS_PER` and `K`
abbrev pub bits_per : ℕ
bits_per = 10

abbrev pub hash_count : ℕ
hash_count = 7

pub record Bloom : Type 0 where
  pub bits : Bytes
  pub m : ℕ

unfoldable pub probe : Bytes → ℕ → ℕ → ℕ
probe h i m =
    let a = from_le_bytes (take 8 h) in
    let b = bit_or (from_le_bytes (take 8 (drop 8 h))) 1 in (a + i * b % 2 ^ 64) % 2 ^ 64 % m

-- `byte & (1 << k) != 0`
abbrev pub bit_set : ℕ → ℕ → Bool
bit_set byte k = not (bit_and byte (2 ^ k) == 0)

unfoldable pub byte_at : Bytes → ℕ → Result ℕ
byte_at [] i = err index_out_of_bounds
byte_at (b ∷ bits) zero = ok b
byte_at (b ∷ bits) (suc i) = byte_at bits i

unfoldable pub store_byte : Bytes → ℕ → ℕ → Result Bytes
store_byte [] i byte = err index_out_of_bounds
store_byte (b ∷ bits) zero byte = ok (byte ∷ bits)
store_byte (b ∷ bits) (suc i) byte = (store_byte bits i byte >>= λ rest. ok (b ∷ rest))

-- `bits[p / 8] |= 1 << (p % 8)`
unfoldable pub set_bit : Bytes → ℕ → Result Bytes
set_bit bits p = do byte ← byte_at bits (p / 8); store_byte bits (p / 8) (bit_or byte (2 ^ (p % 8)))

-- `bits[p / 8] & (1 << (p % 8)) != 0`
unfoldable pub test_bit : Bytes → ℕ → Result Bool
test_bit bits p = (byte_at bits (p / 8) >>= λ byte. ok (bit_set byte (p % 8)))

-- The rounds from `i` on.
unfoldable pub insert_from : Bloom → Bytes → ℕ → ℕ → Result Bloom
insert_from f h i zero = ok f
insert_from f h i (suc rounds) = do
  bits ← set_bit f.bits (probe h i f.m)
  insert_from (record { bits = bits; m = f.m }) h (i + 1) rounds

unfoldable pub insert : Bloom → Bytes → Result Bloom
insert f h = insert_from f h 0 hash_count

unfoldable pub contains_from : Bloom → Bytes → ℕ → ℕ → Result Bool
contains_from f h i zero = ok true
contains_from f h i (suc rounds) = do
  hit ← test_bit f.bits (probe h i f.m)
  elim hit [ true ↦ contains_from f h (i + 1) rounds | false ↦ ok false ]

unfoldable pub maybe_contains : Bloom → Bytes → Result Bool
maybe_contains f h = contains_from f h 0 hash_count

-- `m.div_ceil(8)` and eight more, in the address space of a 64-bit process.
unfoldable pub section_len : ℕ → Result ℕ
section_len m =
    let bytes = (m + 7) / 8 in
    bail_if (ltb (2 ^ 64 - 1) (bytes + 8)) bloom_overflow >> ok (bytes + 8)

unfoldable pub bit_count : ℕ → Result ℕ
bit_count count =
    bail_if (ltb (2 ^ 64 - 1) (max count 1 * bits_per)) bloom_overflow
    >> ok (max (max count 1 * bits_per) 64)

unfoldable pub encoded_len_for_capacity : ℕ → Result ℕ
encoded_len_for_capacity n = do m ← bit_count n; section_len m

unfoldable pub try_with_capacity : ℕ → Result Bloom
try_with_capacity n = do
  encoded ← encoded_len_for_capacity n
  m ← bit_count n
  ok (record { bits = replicate (encoded - 8) 0; m = m })

unfoldable pub try_encode : Bloom → Result Bytes
try_encode f =
    bail_if (ltb (2 ^ 64 - 1) (length f.bits + 8)) bloom_overflow
    >> ok (to_le_bytes 8 f.m ++ f.bits)

unfoldable pub decode : Bytes → Result Bloom
decode b = do
  bail_if (ltb (length b) 8) bloom_truncated
  let m = from_le_bytes (take 8 b)
  bytes ← section_len m
  bail_if (m == 0 || not (length b == bytes)) bloom_size
  ok (record { bits = drop 8 b; m = m })

abbrev pub is_hit : Result Bool → Bool
is_hit (err e) = false
is_hit (ok hit) = hit

-- `byte < bits.len() && bits[byte] & (1 << (p % 8)) != 0` in each round.
unfoldable pub probe_from : Bytes → ℕ → Bytes → ℕ → ℕ → Bool
probe_from bits m h i zero = true
probe_from bits m h i (suc rounds) = elim (is_hit (test_bit bits (probe h i m))) [
  | true ↦ probe_from bits m h (i + 1) rounds
  | false ↦ false
]

unfoldable pub probe_encoded : Bytes → Bytes → Bool
probe_encoded sec h =
    let m = from_le_bytes (take 8 sec) in
    if ltb (length sec) 8 then false else elim (section_len m) [
      | err e ↦ false
      | ok bytes ↦
          if m == 0 || not (length sec == bytes)
          then false
          else probe_from (drop 8 sec) m h 0 hash_count
    ]

-- The hashes of `chunks_exact(32)`, `count` of them.
unfoldable pub check_hashes : Bloom → ℕ → Bytes → Result (Unit {0})
check_hashes f zero hashes = ok tt
check_hashes f (suc count) hashes = do
  hit ← maybe_contains f (take 32 hashes)
  bail_if (not hit) bloom_false_negative
  check_hashes f count (drop 32 hashes)

unfoldable pub validate_current : Bytes → Bytes → Result (Unit {0})
validate_current b hashes = do
  bail_if (not (length hashes % 32 == 0)) partial_identity
  filter ← decode b
  expected_m ← bit_count (length hashes / 32)
  bail_if (not (filter.m == expected_m)) bloom_parameters
  check_hashes filter (length hashes / 32) hashes
