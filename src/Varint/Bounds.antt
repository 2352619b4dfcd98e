-- ===== src/Varint/Bounds.antt =====
-- `put_varint` as an equation for each branch, and the length of what it appends.
use mathlib.Core.Logic.{dif_pos, dif_neg}
use mathlib.Core.WellFounded.{Acc}
use native.Mathlib.Decide.{dec_le}
use native.Mathlib.Bridge.{le_prop}
use turndb.Shared.{
  ℕ, zero, suc, ◌+◌, ◌/◌, ◌%◌, ◌^◌, ◌≤◌, ◌<◌, ◌≡◌, sym, ap, ◌∙◌, List, [], ◌∷◌, ◌++◌, append_assoc,
  arith, All, ◌⊎◌, inl, inr,
}
use turndb.Shared.Order.{lt_wf}
use turndb.Shared.Bits.{IsByte, bit_or_80}
use turndb.Varint.Defs.{put_varint_loop, put_varint, varint, shift_shrinks}

-- One round of the loop, on either branch.
loop_more :
    (v : ℕ) (smaller : (m : ℕ) → m < v → Acc ◌<◌ m) (out : List ℕ) (h : 0x80 ≤ v)
    → put_varint_loop v (Acc.intro v smaller) out
      ≡ put_varint_loop (v / 128) (smaller _ (shift_shrinks v h)) (out ++ (v % 128 + 128) ∷ [])
unfolding put_varint_loop
loop_more v smaller out h =
    dif_pos (dec_le 0x80 v) le_prop h _ _
    ∙ ap (λ (b : ℕ). put_varint_loop (v / 128) (smaller _ (shift_shrinks v h)) (out ++ b ∷ []))
        (omega (arith, bit_or_80 (v % 2 ^ 8)))

loop_last :
    (v : ℕ) (w : Acc ◌<◌ v) (out : List ℕ) → v < 0x80 → put_varint_loop v w out ≡ out ++ v ∷ []
unfolding put_varint_loop
loop_last v (Acc.intro _ smaller) out h =
    dif_neg (dec_le 0x80 v) (λ k. omega arith) _ _ ∙ ap (λ (b : ℕ). out ++ b ∷ []) (omega arith)

-- What the loop appends depends neither on what stands before it nor on the proof that it ends.
loop_append :
    (n v : ℕ) (w w' : Acc ◌<◌ v) (out : List ℕ)
    → v < n
    → put_varint_loop v w out ≡ out ++ put_varint_loop v w' []
loop_append zero v w w' out h = elim h [ ]
loop_append (suc n) v (Acc.intro _ s) (Acc.intro _ s') out h = elim (dec_le 0x80 v) [
  | yes p ↦
      let w = s _ (shift_shrinks v p) in
      let w' = s' _ (shift_shrinks v p) in
      let b : List ℕ = (v % 128 + 128) ∷ [] in
      loop_more v s out p
      ∙ loop_append n (v / 128) w w' (out ++ b) (omega arith)
      ∙ append_assoc out b _
      ∙ ap (λ (t : List ℕ). out ++ t)
          (sym (loop_append n (v / 128) w' w' b (omega arith)) ∙ sym (loop_more v s' [] p))
  | no p ↦
      loop_last v (Acc.intro v s) out (omega arith)
      ∙ ap (λ (t : List ℕ). out ++ t) (sym (loop_last v (Acc.intro v s') [] (omega arith)))
]

-- `put_varint` keeps what the buffer holds and appends bytes that depend on the value alone.
pub put_varint_lem : (out : List ℕ) (v : ℕ) → put_varint out v ≡ out ++ varint v
unfolding put_varint
put_varint_lem out v = loop_append (suc v) v (lt_wf.apply v) (lt_wf.apply v) out (omega arith)

pub varint_small : (v : ℕ) → v < 0x80 → varint v ≡ v ∷ []
unfolding put_varint
varint_small v h = loop_last v (lt_wf.apply v) [] h

pub varint_large : (v : ℕ) → 0x80 ≤ v → varint v ≡ (v % 128 + 128) ∷ varint (v / 128)
unfolding put_varint
varint_large v h = large (lt_wf.apply v)
  where
    large : (w : Acc ◌<◌ v) → put_varint_loop v w [] ≡ (v % 128 + 128) ∷ varint (v / 128)
    large (Acc.intro _ s) =
        loop_more v s [] h
        ∙ loop_append (suc (v / 128)) (v / 128) (s _ (shift_shrinks v h)) (lt_wf.apply (v / 128))
            ((v % 128 + 128) ∷ []) (omega arith)

-- Induction on a varint: its last byte, or one byte more.
pub varint_cases :
    (v : ℕ)
    → ((v < 0x80) × (varint v ≡ v ∷ []))
      ⊎ ((0x80 ≤ v) × (varint v ≡ (v % 128 + 128) ∷ varint (v / 128)))
varint_cases v = elim (dec_le 0x80 v) [
  | yes p ↦ inr (p, varint_large v p)
  | no p ↦ inl (omega arith, varint_small v (omega arith))
]

varint-IsByte_below : (n v : ℕ) → v < n → All IsByte (varint v)
varint-IsByte_below zero v h = elim h [ ]
varint-IsByte_below (suc n) v h = elim (varint_cases v) [
  | inl (s, e) ↦ rw e (omega arith, tt)
  | inr (l, e) ↦ rw e (omega arith, varint-IsByte_below n (v / 128) (omega arith))
]

pub varint-IsByte : (v : ℕ) → All IsByte (varint v)
varint-IsByte v = varint-IsByte_below (suc v) v (omega arith)
