-- ===== src/Varint/Defs.antt =====
-- The two functions of src/part/idcol.rs, statement by statement.
use mathlib.Core.Logic.{dite}
use mathlib.Core.WellFounded.{Acc}
use native.Mathlib.Decide.{dec_le}
use turndb.Shared.{
  ℕ, zero, suc, ◌+◌, ◌*◌, ◌/◌, ◌%◌, ◌^◌, ◌≤◌, ◌<◌, List, [], ◌∷◌, ◌++◌, ◌==◌, ltb, not, ◌&&◌,
  if◌then◌else◌, bit_and, bit_or, arith, Result, ok, err, varint_truncated, varint_overflow,
  varint_not_minimal,
}
use turndb.Shared.Order.{lt_wf}

pub shift_shrinks : (v : ℕ) → 0x80 ≤ v → v / 2 ^ 7 < v
shift_shrinks v h = omega arith

-- `while v >= 0x80 { out.push((v as u8) | 0x80); v >>= 7; } out.push(v as u8)`
unfoldable pub put_varint_loop : (v : ℕ) → Acc ◌<◌ v → List ℕ → List ℕ
put_varint_loop v (Acc.intro _ smaller) out =
    dite (dec_le 0x80 v)
      (λ more.
        put_varint_loop (v / 2 ^ 7) (smaller _ (shift_shrinks v more))
          (out ++ bit_or (v % 2 ^ 8) 0x80 ∷ []))
      (λ _. out ++ (v % 2 ^ 8) ∷ [])

unfoldable pub put_varint : List ℕ → ℕ → List ℕ
unfolding put_varint_loop lt_wf dec_le
put_varint out v = put_varint_loop v (lt_wf.apply v) out

-- The bytes that `put_varint` appends.
abbrev pub varint : ℕ → List ℕ
varint v = put_varint [] v

-- `for index in 0..10`: `rounds` is what is left of the range, and `v` the value so far.
unfoldable pub get_varint_rounds : ℕ → ℕ → ℕ → List ℕ → Result (ℕ × List ℕ)
get_varint_rounds zero index v b = err varint_overflow
get_varint_rounds (suc rounds) index v [] = err varint_truncated
get_varint_rounds (suc rounds) index v (byte ∷ rest) =
    let payload = bit_and byte 0x7f in
    let v' = bit_or v (payload * 2 ^ (index * 7) % 2 ^ 64) in
    let more = get_varint_rounds rounds (index + 1) v' rest in
    if index == 9 && not (bit_and byte 0xfe == 0)
    then err varint_overflow
    else if bit_and byte 0x80 == 0
    then (if ltb 0 index && payload == 0 then err varint_not_minimal else ok (v', rest))
    else more

unfoldable pub get_varint : List ℕ → Result (ℕ × List ℕ)
unfolding get_varint_rounds
get_varint b = get_varint_rounds 10 0 0 b
