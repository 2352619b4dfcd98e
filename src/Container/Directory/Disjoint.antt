-- ===== src/Container/Directory/Disjoint.antt =====
-- The sorted ranges of `read_directory`, and what the test of neighbours says of all of them.
use turndb.Shared.{
  ℕ, ◌+◌, ◌-◌, ◌^◌, ◌≤◌, ◌<◌, ◌≡◌, refl, inl, inr, true, false, Bool-cases, ltb, List, [], ◌∷◌, All,
  ok, arith, >>=-eq-ok, bail_if-eq-ok, bail_if,
}
use turndb.Container.Directory.Encode.{Extent}
use turndb.Container.Directory.Ranges.{extent_le, insert_sorted, sort_unstable, check_windows}
use turndb.Container.Directory.WellFormed.{IsApart, AreApart}

pub IsApart-sym : (x y : Extent) → IsApart x y → IsApart y x
IsApart-sym x y (inl h) = inr h
IsApart-sym x y (inr h) = inl h

module _ {κ} (P : Extent → Type κ) where
  All-insert_sorted : (x : Extent) (xs : List Extent) → P x → All P xs → All P (insert_sorted x xs)
  unfolding insert_sorted
  All-insert_sorted x [] p h = (p, tt)
  All-insert_sorted x (y ∷ ys) p h = elim (Bool-cases (extent_le x y)) [
    | inl e ↦ rw e (p, h)
    | inr e ↦ rw e (h.0, All-insert_sorted x ys p h.1)
  ]

  insert_sorted-All : (x : Extent) (xs : List Extent) → All P (insert_sorted x xs) → All P (x ∷ xs)
  unfolding insert_sorted
  insert_sorted-All x [] h = h
  insert_sorted-All x (y ∷ ys) h = elim (Bool-cases (extent_le x y)) [
    | inl e ↦ rw e at h
    | inr e ↦
        let k : All P (y ∷ insert_sorted x ys) = rw e at h in
        let (p, q) = insert_sorted-All x ys k.1 in (p, (k.0, q))
  ]

  All-sort_unstable : (xs : List Extent) → All P xs → All P (sort_unstable xs)
  unfolding sort_unstable
  All-sort_unstable [] h = tt
  All-sort_unstable (x ∷ xs) h =
      All-insert_sorted x (sort_unstable xs) h.0 (All-sort_unstable xs h.1)

  sort_unstable-All : (xs : List Extent) → All P (sort_unstable xs) → All P xs
  unfolding sort_unstable
  sort_unstable-All [] h = tt
  sort_unstable-All (x ∷ xs) h =
      let (p, q) = insert_sorted-All x (sort_unstable xs) h in (p, sort_unstable-All xs q)

AreApart-insert_sorted :
    (x : Extent) (xs : List Extent) → AreApart (x ∷ xs) → AreApart (insert_sorted x xs)
unfolding insert_sorted
AreApart-insert_sorted x [] h = h
AreApart-insert_sorted x (y ∷ ys) h = elim (Bool-cases (extent_le x y)) [
  | inl e ↦ rw e h
  | inr e ↦ rw e (
    All-insert_sorted (IsApart y) x ys (IsApart-sym x y h.0.0) h.1.0,
    AreApart-insert_sorted x ys (h.0.1, h.1.1),
  )
]

AreApart-sort_unstable : (xs : List Extent) → AreApart xs → AreApart (sort_unstable xs)
unfolding sort_unstable
AreApart-sort_unstable [] h = tt
AreApart-sort_unstable (x ∷ xs) h =
    AreApart-insert_sorted x (sort_unstable xs)
      (All-sort_unstable (IsApart x) xs h.0, AreApart-sort_unstable xs h.1)

insert_sorted-AreApart :
    (x : Extent) (xs : List Extent) → AreApart (insert_sorted x xs) → AreApart (x ∷ xs)
unfolding insert_sorted
insert_sorted-AreApart x [] h = h
insert_sorted-AreApart x (y ∷ ys) h = elim (Bool-cases (extent_le x y)) [
  | inl e ↦ rw e at h
  | inr e ↦
      let k : AreApart (y ∷ insert_sorted x ys) = rw e at h in
      let (p, q) = insert_sorted-All (IsApart y) x ys k.0 in
      let (r, s) = insert_sorted-AreApart x ys k.1 in ((IsApart-sym y x p, r), (q, s))
]

sort_unstable-AreApart : (xs : List Extent) → AreApart (sort_unstable xs) → AreApart xs
unfolding sort_unstable
sort_unstable-AreApart [] h = tt
sort_unstable-AreApart (x ∷ xs) h =
    let (p, q) = insert_sorted-AreApart x (sort_unstable xs) h in
    (sort_unstable-All (IsApart x) xs p, sort_unstable-AreApart xs q)

-- Ascending, each range against all behind it.
abbrev IsSorted : List Extent → Type 0
IsSorted [] = Unit {0}
IsSorted (x ∷ xs) = All (λ y. x.0 ≤ y.0) xs × IsSorted xs

extent_le→le : (x y : Extent) → extent_le x y ≡ true → x.0 ≤ y.0
extent_le→le x y h = ground arith

extent_le-total : (x y : Extent) → extent_le x y ≡ false → y.0 ≤ x.0
extent_le-total x y h = ground arith

All-trans : (m n : ℕ) (xs : List Extent) → m ≤ n → All (λ y. n ≤ y.0) xs → All (λ y. m ≤ y.0) xs
All-trans m n [] h k = tt
All-trans m n (x ∷ xs) h k = (omega (arith, h, k.0), All-trans m n xs h k.1)

insert_sorted-IsSorted :
    (x : Extent) (xs : List Extent) → IsSorted xs → IsSorted (insert_sorted x xs)
unfolding insert_sorted
insert_sorted-IsSorted x [] h = (tt, tt)
insert_sorted-IsSorted x (y ∷ ys) h = elim (Bool-cases (extent_le x y)) [
  | inl e ↦ let le = extent_le→le x y e in rw e ((le, All-trans x.0 y.0 ys le h.0), h)
  | inr e ↦ rw e (
    All-insert_sorted (λ z. y.0 ≤ z.0) x ys (extent_le-total x y e) h.0,
    insert_sorted-IsSorted x ys h.1,
  )
]

sort_unstable-IsSorted : (xs : List Extent) → IsSorted (sort_unstable xs)
unfolding sort_unstable
sort_unstable-IsSorted [] = tt
sort_unstable-IsSorted (x ∷ xs) =
    insert_sorted-IsSorted x (sort_unstable xs) (sort_unstable-IsSorted xs)

-- A range of at least one byte that ends within 64 bits.
abbrev pub IsRange : Extent → Type 0
IsRange (off, len) = (0 < len) × (off + len < 2 ^ 64)

sorted-check_windows :
    (xs : List Extent) → All IsRange xs → AreApart xs → IsSorted xs → check_windows xs ≡ ok tt
unfolding check_windows
sorted-check_windows [] r a s = refl
sorted-check_windows (x ∷ []) r a s = refl
sorted-check_windows (x ∷ y ∷ ys) r a s =
    let fits : ltb (2 ^ 64 - 1) (x.0 + x.1) ≡ false = ground (arith, r.0) in
    let behind : ltb y.0 (x.0 + x.1) ≡ false = elim a.0.0 [
      | inl h ↦ ground arith
      | inr h ↦ absurd (omega (arith, s.0.0, r.1.0, h))
    ] in
    rw (fits, behind) (sorted-check_windows (y ∷ ys) r.1 a.1 s.1)

-- Ranges that share no byte pass the check.
pub AreApart-check_windows :
    (xs : List Extent) → All IsRange xs → AreApart xs → check_windows (sort_unstable xs) ≡ ok tt
AreApart-check_windows xs r a =
    sorted-check_windows (sort_unstable xs) (All-sort_unstable IsRange xs r)
      (AreApart-sort_unstable xs a) (sort_unstable-IsSorted xs)

window :
    (x y : Extent) (ys : List Extent)
    → check_windows (x ∷ y ∷ ys) ≡ ok tt
    → (x.0 + x.1 ≤ y.0) × (check_windows (y ∷ ys) ≡ ok tt)
unfolding check_windows
window x y ys h =
    let (_, _, h) = >>=-eq-ok (bail_if (ltb (2 ^ 64 - 1) (x.0 + x.1)) _) _ h in
    let (_, apart, h) = >>=-eq-ok (bail_if (ltb y.0 (x.0 + x.1)) _) _ h in
    let behind = bail_if-eq-ok (ltb y.0 (x.0 + x.1)) _ apart in (ground arith, h)

windows-behind :
    (n : ℕ) (x : Extent) (xs : List Extent)
    → n ≤ x.0
    → check_windows (x ∷ xs) ≡ ok tt
    → All (λ y. n ≤ y.0) (x ∷ xs)
windows-behind n x [] h k = (h, tt)
windows-behind n x (y ∷ ys) h k =
    let (le, rest) = window x y ys k in (h, windows-behind n y ys (omega (arith, h, le)) rest)

All-map {κ μ} :
    {P : Extent → Type κ} {Q : Extent → Type μ}
    → ((x : Extent) → P x → Q x)
    → (xs : List Extent) → All P xs
    → All Q xs
All-map f [] h = tt
All-map f (x ∷ xs) h = (f x h.0, All-map f xs h.1)

windows-AreApart : (xs : List Extent) → check_windows xs ≡ ok tt → AreApart xs
windows-AreApart [] h = tt
windows-AreApart (x ∷ []) h = (tt, tt)
windows-AreApart (x ∷ y ∷ ys) h =
    let (le, rest) = window x y ys h in
    (
      All-map (λ z k. inl k) (y ∷ ys) (windows-behind (x.0 + x.1) y ys le rest),
      windows-AreApart (y ∷ ys) rest,
    )

-- The check of neighbours shows that no two of the ranges share a byte.
pub check_windows-AreApart :
    (xs : List Extent) → check_windows (sort_unstable xs) ≡ ok tt → AreApart xs
check_windows-AreApart xs h = sort_unstable-AreApart xs (windows-AreApart (sort_unstable xs) h)
