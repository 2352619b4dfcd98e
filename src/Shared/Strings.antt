-- ===== src/Shared/Strings.antt =====
-- Byte strings: equality, the order of `[u8]` and `str`, and the UTF-8 check of `String::from_utf8`.
use Prim.Native.Nat.{ℕ, zero, suc}
use mathlib.Core.Path.{◌≡◌, refl}
use mathlib.Core.Bool.{Bool, true, false, ◌&&◌}
use mathlib.Core.List.{List, [], ◌∷◌}
use native.Mathlib.Omega.{arith}
use turndb.Shared.Tests.{ltb, leb, ◌==◌, if◌then◌else◌}

abbrev pub Bytes : Type 0
Bytes = List ℕ

unfoldable pub bytes_eq : Bytes → Bytes → Bool
bytes_eq [] [] = true
bytes_eq [] (y ∷ ys) = false
bytes_eq (x ∷ xs) [] = false
bytes_eq (x ∷ xs) (y ∷ ys) = x == y && bytes_eq xs ys

pub bytes_eq_refl : (a : Bytes) → bytes_eq a a ≡ true
unfolding bytes_eq
bytes_eq_refl [] = refl
bytes_eq_refl (x ∷ xs) = ground (arith, bytes_eq_refl xs)

pub bytes_eq→eq : (a b : Bytes) → bytes_eq a b ≡ true → a ≡ b
unfolding bytes_eq
bytes_eq→eq [] [] h = refl
bytes_eq→eq [] (y ∷ ys) h = cc
bytes_eq→eq (x ∷ xs) [] h = cc
bytes_eq→eq (x ∷ xs) (y ∷ ys) h = ground (arith, bytes_eq→eq xs ys)

-- `a < b` on slices: lexicographic.
unfoldable pub bytes_lt : Bytes → Bytes → Bool
bytes_lt [] [] = false
bytes_lt [] (y ∷ ys) = true
bytes_lt (x ∷ xs) [] = false
bytes_lt (x ∷ xs) (y ∷ ys) = let rest = bytes_lt xs ys in if ltb x y then true else x == y && rest

pub bytes_lt_irrefl : (a : Bytes) → bytes_lt a a ≡ false
unfolding bytes_lt
bytes_lt_irrefl [] = refl
bytes_lt_irrefl (x ∷ xs) = ground (arith, bytes_lt_irrefl xs)

pub bytes_lt_trans :
    (a b c : Bytes) → bytes_lt a b ≡ true → bytes_lt b c ≡ true → bytes_lt a c ≡ true
unfolding bytes_lt
bytes_lt_trans [] [] c h k = cc
bytes_lt_trans [] (y ∷ ys) [] h k = cc
bytes_lt_trans [] (y ∷ ys) (z ∷ zs) h k = refl
bytes_lt_trans (x ∷ xs) [] c h k = cc
bytes_lt_trans (x ∷ xs) (y ∷ ys) [] h k = cc
bytes_lt_trans (x ∷ xs) (y ∷ ys) (z ∷ zs) h k = ground (arith, bytes_lt_trans xs ys zs)

pub bytes_lt_total : (a b : Bytes) → bytes_lt a b ≡ false → bytes_lt b a ≡ false → a ≡ b
unfolding bytes_lt
bytes_lt_total [] [] h k = refl
bytes_lt_total [] (y ∷ ys) h k = cc
bytes_lt_total (x ∷ xs) [] h k = cc
bytes_lt_total (x ∷ xs) (y ∷ ys) h k = ground (arith, bytes_lt_total xs ys)

-- The continuation bytes that a leading byte asks for, and the range of the first of them.
record Utf8State : Type 0 where
  accepted : Bool
  needed : ℕ
  lowest : ℕ
  highest : ℕ

utf8_lead : ℕ → Utf8State
utf8_lead b =
    if ltb b 0x80
    then record { accepted = true; needed = 0; lowest = 0x80; highest = 0xbf }
    else if leb 0xc2 b && leb b 0xdf
    then record { accepted = true; needed = 1; lowest = 0x80; highest = 0xbf }
    else if leb 0xe0 b && leb b 0xef
    then record {
      accepted = true;
      needed = 2;
      lowest = if b == 0xe0 then 0xa0 else 0x80;
      highest = if b == 0xed then 0x9f else 0xbf;
    }
    else if leb 0xf0 b && leb b 0xf4
    then record {
      accepted = true;
      needed = 3;
      lowest = if b == 0xf0 then 0x90 else 0x80;
      highest = if b == 0xf4 then 0x8f else 0xbf;
    }
    else record { accepted = false; needed = 0; lowest = 0x80; highest = 0xbf }

utf8_from : ℕ → ℕ → ℕ → Bytes → Bool
utf8_from zero lowest highest [] = true
utf8_from (suc n) lowest highest [] = false
utf8_from zero lowest highest (b ∷ bs) =
    let s = utf8_lead b in s.accepted && utf8_from s.needed s.lowest s.highest bs
utf8_from (suc n) lowest highest (b ∷ bs) =
    leb lowest b && leb b highest && utf8_from n 0x80 0xbf bs

-- Whether a byte string is UTF-8, by the table of well-formed sequences.
unfoldable pub is_utf8 : Bytes → Bool
unfolding utf8_lead utf8_from
is_utf8 b = utf8_from 0 0x80 0xbf b
