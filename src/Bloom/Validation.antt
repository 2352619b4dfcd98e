-- ===== src/Bloom/Validation.antt =====
-- `validate_current` over a part's hash column.
use turndb.Shared.{
  ℕ, ◌*◌, ◌/◌, ◌%◌, ◌^◌, ◌<◌, max, ◌≡◌, refl, sym, ap, ◌∙◌, Bool, true, false, not, ◌==◌, List, [],
  ◌∷◌, ◌++◌, length, All, take, take-append_eq, drop-append_eq, length-append, Bytes, Result, ok,
  bail_if, bail_if-eq-ok, >>=-eq-ok, bloom_false_negative, arith,
}
use turndb.Bloom.Defs.{
  Bloom, maybe_contains, bit_count, try_with_capacity, try_encode, decode, check_hashes,
  validate_current, probe_encoded,
}
use turndb.Bloom.Filter.{insert_all, insert_all-Grown, Grown}
use turndb.Bloom.Encoding.{
  contains_decoded, probe_encoded-decode, decode-try_encode, try_with_capacity-IsBloom,
}

-- The hash column: the hashes one after the other.
abbrev pub column : List Bytes → Bytes
column [] = []
column (h ∷ hs) = h ++ column hs

abbrev pub IsHash : Bytes → Type 0
IsHash h = length h ≡ 32

length-column : (hs : List Bytes) → All IsHash hs → length (column hs) ≡ 32 * length hs
length-column [] sized = omega arith
length-column (h ∷ hs) sized =
    omega (arith, length-append {0} h (column hs), length-column hs sized.1, sized.0)

check_hashes-ok :
    (f : Bloom) (hs : List Bytes)
    → All IsHash hs
    → All (λ h. maybe_contains f h ≡ ok true) hs
    → check_hashes f (length hs) (column hs) ≡ ok tt
unfolding check_hashes
check_hashes-ok f [] sized held = refl
check_hashes-ok f (h ∷ hs) sized held =
    rw (take-append_eq h (column hs) 32 sized.0, drop-append_eq h (column hs) 32 sized.0, held.0)
      (check_hashes-ok f hs sized.1 held.1)

-- A filter made for the number of a part's pieces, with every piece's hash inserted and encoded,
-- passes `validate_current` over the column of those hashes, and no step fails; the hashes have 32
-- bytes, and their number of bits fits 64 bits.
pub validate_current-insert_all :
    (hs : List Bytes)
    → All IsHash hs
    → max (length hs) 1 * 10 < 2 ^ 64
    → (f : Bloom) × (g : Bloom) × (b : Bytes) × ((try_with_capacity (length hs) ≡ ok f)
        × (insert_all f hs ≡ ok g)
        × (try_encode g ≡ ok b)
        × (validate_current b (column hs) ≡ ok tt))
unfolding validate_current Grown
validate_current-insert_all hs sized small =
    let (f, (made, sound, counted)) = try_with_capacity-IsBloom (length hs) small in
    let (g, (inserted, (sound_g, same, kept), held)) = insert_all-Grown f hs sound in
    let (b, (encoded, decoded)) = decode-try_encode g sound_g in
    let total = length-column hs sized in
    let pieces : length (column hs) / 32 ≡ length hs = omega arith in
    let whole : (length (column hs) % 32 == 0) ≡ true = ground arith in
    let current : (g.m == f.m) ≡ true = ground arith in
    (
      f,
      g,
      b,
      (
        made,
        inserted,
        encoded,
        rw (whole, decoded, pieces, counted, current, check_hashes-ok g hs sized held) refl,
      ),
    )

check_hashes-inv :
    (f : Bloom) (hs : List Bytes)
    → All IsHash hs
    → check_hashes f (length hs) (column hs) ≡ ok tt
    → All (λ h. maybe_contains f h ≡ ok true) hs
unfolding check_hashes
check_hashes-inv f [] sized h = tt
check_hashes-inv f (x ∷ hs) sized h =
    let (hit, held, k) = >>=-eq-ok (maybe_contains f (take 32 (x ++ column hs))) _ h in
    let (u, tested, k) = >>=-eq-ok (bail_if (not hit) bloom_false_negative) _ k in
    let same = take-append_eq x (column hs) 32 sized.0 in
    let rest = drop-append_eq x (column hs) 32 sized.0 in
    (
      sym (ap (λ (y : Bytes). maybe_contains f y) same)
          ∙ held
          ∙ ap (λ (b : Bool). ok b)
              (not-false hit (bail_if-eq-ok (not hit) bloom_false_negative tested)),
      check_hashes-inv f hs sized.1
          (ap (λ (y : Bytes). check_hashes f (length hs) y) (sym rest) ∙ k),
    )
  where
    not-false : (b : Bool) → not b ≡ false → b ≡ true
    not-false true h = refl
    not-false false h = cc

hit_of : (a b : Bool) → ok a ≡ ok b → a ≡ b
hit_of a b h = cc

-- A section that `validate_current` accepts for a column of 32-byte hashes does not hide any: the
-- probe of the encoded section answers true for every hash of the column.
pub validate_current-probe_encoded :
    (b : Bytes) (hs : List Bytes)
    → All IsHash hs
    → validate_current b (column hs) ≡ ok tt
    → All (λ h. probe_encoded b h ≡ true) hs
unfolding validate_current contains_decoded
validate_current-probe_encoded b hs sized h =
    let (u, whole, k) = >>=-eq-ok (bail_if (not (length (column hs) % 32 == 0)) _) _ h in
    let (f, decoded, k) = >>=-eq-ok (decode b) _ k in
    let (m, counted, k) = >>=-eq-ok (bit_count (length (column hs) / 32)) _ k in
    let (v, current, k) = >>=-eq-ok (bail_if (not (f.m == m)) _) _ k in
    let total = length-column hs sized in
    let pieces : length (column hs) / 32 ≡ length hs = omega arith in
    each f decoded hs
      (check_hashes-inv f hs sized (ap (λ (n : ℕ). check_hashes f n (column hs)) (sym pieces) ∙ k))
  where
    each :
        (f : Bloom)
        → decode b ≡ ok f
        → (xs : List Bytes) → All (λ x. maybe_contains f x ≡ ok true) xs
        → All (λ x. probe_encoded b x ≡ true) xs
    each f decoded [] held = tt
    each f decoded (x ∷ xs) held = (
      hit_of _ _ (
          sym (probe_encoded-decode b x)
          ∙ ap (λ (r : Result Bloom). contains_decoded r x) decoded
          ∙ held.0),
      each f decoded xs held.1,
    )
