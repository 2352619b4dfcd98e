-- ===== src/Bloom/Encoding.antt =====
-- The encoded filter, and the probe that reads it without decoding.
use turndb.Shared.{
  ℕ, zero, suc, ◌+◌, ◌-◌, ◌*◌, ◌/◌, ◌%◌, ◌^◌, ◌<◌, max, ◌≡◌, refl, ap, ◌∙◌, inl, inr, Bool, true,
  false, not, ◌==◌, ◌||◌, ltb, [], ◌∷◌, ◌++◌, length, All, take, drop, take-append_eq,
  drop-append_eq, length-append, length-drop, length-replicate, replicate, Bytes, Result, ok, err,
  arith, Bool-cases,
}
use turndb.Shared.Bits.{IsByte}
use turndb.Shared.Words.{to_le_bytes, from_le_bytes, length-to_le_bytes, from-to_le_bytes}
use turndb.Bloom.Defs.{
  Bloom, hash_count, probe, bit_set, byte_at, is_hit, test_bit, contains_from, maybe_contains,
  section_len, bit_count, encoded_len_for_capacity, try_with_capacity, try_encode, decode,
  probe_from, probe_encoded,
}
use turndb.Bloom.Filter.{IsBloom, probe-lt}

section_len-ok : (m : ℕ) → m < 2 ^ 64 → section_len m ≡ ok ((m + 7) / 8 + 8)
unfolding section_len
section_len-ok m h = ground arith

replicate-IsByte : (n : ℕ) → All IsByte (replicate n 0)
replicate-IsByte zero = tt
replicate-IsByte (suc n) = (omega arith, replicate-IsByte n)

-- The encoding of a well-formed filter is decoded to the same filter.
pub decode-try_encode :
    (f : Bloom) → IsBloom f → (b : Bytes) × ((try_encode f ≡ ok b) × (decode b ≡ ok f))
unfolding try_encode decode
decode-try_encode f (positive, small, room, bytes) =
    let head = to_le_bytes 8 f.m in
    let front : length head ≡ 8 = length-to_le_bytes 8 f.m in
    let whole : length (head ++ f.bits) ≡ 8 + (f.m + 7) / 8 =
      length-append {0} head f.bits ∙ omega (arith, front, room) in
    let fits : ltb (2 ^ 64 - 1) (length f.bits + 8) ≡ false = ground arith in
    let long : ltb (length (head ++ f.bits)) 8 ≡ false = ground arith in
    let sized : (f.m == 0 || not (length (head ++ f.bits) == (f.m + 7) / 8 + 8)) ≡ false =
      ground arith in
    (
      head ++ f.bits,
      (
        rw fits refl,
        rw
            (
              long,
              take-append_eq head f.bits 8 front,
              from-to_le_bytes 8 f.m (omega arith),
              section_len-ok f.m small,
              sized,
              drop-append_eq head f.bits 8 front,
            )
            refl,
      ),
    )

-- The answer of the filter that a section holds; a malformed section holds nothing.
unfoldable pub contains_decoded : Result Bloom → Bytes → Result Bool
contains_decoded (err e) h = ok false
contains_decoded (ok f) h = maybe_contains f h

byte_at-ok : (bits : Bytes) (i : ℕ) → i < length bits → (b : ℕ) × (byte_at bits i ≡ ok b)
unfolding byte_at
byte_at-ok [] i lt = elim lt [ ]
byte_at-ok (b ∷ bits) zero lt = (b, refl)
byte_at-ok (b ∷ bits) (suc i) lt = byte_at-ok bits i (omega arith)

-- Over bits that have room for the count, the two loops agree and no index is past the end.
contains_from-probe_from :
    (f : Bloom) (h : Bytes) (i rounds : ℕ)
    → 0 < f.m
    → length f.bits ≡ (f.m + 7) / 8
    → contains_from f h i rounds ≡ ok (probe_from f.bits f.m h i rounds)
unfolding contains_from probe_from test_bit
contains_from-probe_from f h i zero positive room = refl
contains_from-probe_from f h i (suc rounds) positive room =
    let p : ℕ = probe h i f.m in
    let bound = probe-lt h i f.m positive in
    let (b, there) = byte_at-ok f.bits (p / 8) (omega arith) in
    elim (Bool-cases (bit_set b (p % 8))) [
      | inl hit ↦
          let step : probe_from f.bits f.m h i (suc rounds)
              ≡ probe_from f.bits f.m h (i + 1) rounds =
            ap next (tested b true there hit) in
          rw (step, there, hit) (contains_from-probe_from f h (i + 1) rounds positive room)
      | inr miss ↦
          let step : probe_from f.bits f.m h i (suc rounds) ≡ false =
            ap next (tested b false there miss) in
          rw (step, there, miss) refl
    ]
  where
    next : Result Bool → Bool
    next r = elim (is_hit r) [ true ↦ probe_from f.bits f.m h (i + 1) rounds | false ↦ false ]

    tested :
        (b : ℕ) (hit : Bool)
        → byte_at f.bits (probe h i f.m / 8) ≡ ok b
        → bit_set b (probe h i f.m % 8) ≡ hit
        → test_bit f.bits (probe h i f.m) ≡ ok hit
    tested b hit there e = rw (there, e) refl

-- For every section, malformed ones included, probing the encoded bytes gives the answer of the
-- decoded filter, which is false when the section does not decode; the decoded filter answers
-- without an index past the end of its bits.
pub probe_encoded-decode :
    (sec h : Bytes) → contains_decoded (decode sec) h ≡ ok (probe_encoded sec h)
unfolding contains_decoded decode probe_encoded section_len maybe_contains
probe_encoded-decode sec h = elim (Bool-cases (ltb (length sec) 8)) [
  | inl short ↦ rw short refl
  | inr long ↦
      let m : ℕ = from_le_bytes (take 8 sec) in
      elim (Bool-cases (ltb (2 ^ 64 - 1) ((m + 7) / 8 + 8))) [
        | inl over ↦ rw (long, over) refl
        | inr fits ↦ elim (Bool-cases (m == 0 || not (length sec == (m + 7) / 8 + 8))) [
          | inl wrong ↦ rw (long, fits, wrong) refl
          | inr sized ↦
              rw (long, fits, sized)
                (contains_from-probe_from (record { bits = drop 8 sec; m = m }) h 0 hash_count
                  (ground arith) (ground (arith, length-drop {0} 8 sec)))
        ]
      ]
]

bit_count-ok : (n : ℕ) → max n 1 * 10 < 2 ^ 64 → bit_count n ≡ ok (max (max n 1 * 10) 64)
unfolding bit_count
bit_count-ok n h = let fits : ltb (2 ^ 64 - 1) (max n 1 * 10) ≡ false = ground arith in rw fits refl

-- A filter for a count of pieces whose bits fit 64 bits is built, well-formed and sized for it.
pub try_with_capacity-IsBloom :
    (n : ℕ)
    → max n 1 * 10 < 2 ^ 64
    → (f : Bloom) × ((try_with_capacity n ≡ ok f) × IsBloom f × (bit_count n ≡ ok f.m))
unfolding try_with_capacity encoded_len_for_capacity
try_with_capacity-IsBloom n h =
    let m : ℕ = max (max n 1 * 10) 64 in
    let counted = bit_count-ok n h in
    let len = section_len-ok m (omega arith) in
    (
      record { bits = replicate ((m + 7) / 8 + 8 - 8) 0; m = m },
      (
        rw (counted, len) refl,
        (
          omega arith,
          omega arith,
          length-replicate ((m + 7) / 8 + 8 - 8) 0 ∙ omega arith,
          replicate-IsByte _,
        ),
        counted,
      ),
    )
