-- ===== src/IdCol/Search.antt =====
-- The binary search over the restart points of a column.
use turndb.Shared.{
  ℕ, zero, suc, ◌+◌, ◌-◌, ◌*◌, ◌/◌, ◌≤◌, ◌<◌, ◌≡◌, refl, ap, inl, inr, Bool, true, false, ltb, List,
  [], ◌∷◌, length, get_elem?, some, All, Bytes, ok, arith, Bool-cases, bytes_lt,
}
use turndb.IdCol.Defs.{restart, search_groups}
use turndb.IdCol.Stream.{Short, AboveFrom}
use turndb.IdCol.Access.{column_of, get-column_of}
use turndb.IdCol.Order.{below_later}

-- The first ids of the groups from `lo` on, below `hi`, give the answer `b`.
abbrev pub FirstsAre : List Bytes → (Bytes → Bool) → Bool → ℕ → ℕ → Type 0
FirstsAre ids before b lo hi =
    (k : ℕ) (id : Bytes) → lo ≤ k → k < hi → get_elem? ids (k * restart) ≡ some id → before id ≡ b

-- A test that holds of every id below one it holds of.
abbrev pub Downward : (Bytes → Bool) → Type 0
Downward before = (a b : Bytes) → bytes_lt a b ≡ true → before b ≡ true → before a ≡ true

abbrev pub group_count : List Bytes → ℕ
group_count ids = (length ids + (restart - 1)) / restart

pub get_elem?-ge :
    (ids : List Bytes) (i : ℕ) → i < length ids → (id : Bytes) × (get_elem? ids i ≡ some id)
get_elem?-ge [] i h = elim h [ ]
get_elem?-ge (x ∷ ids) zero h = (x, refl)
get_elem?-ge (x ∷ ids) (suc i) h = get_elem?-ge ids i (omega arith)

earlier :
    (ids : List Bytes) (before : Bytes → Bool) (j k : ℕ) (a b : Bytes)
    → AboveFrom 0 [] ids
    → Downward before
    → j ≤ k
    → get_elem? ids (j * restart) ≡ some a
    → get_elem? ids (k * restart) ≡ some b
    → before b ≡ true
    → before a ≡ true
earlier ids before j k a b above down le h h' t = elim (Bool-cases (ltb j k)) [
  | inl lt ↦ down a b (below_later 0 [] ids (j * restart) (k * restart) above h h' (ground arith)) t
  | inr ge ↦
      let same : j ≡ k = ground arith in
      let here = ap (λ (i : ℕ). get_elem? ids (i * restart)) same in cc
]

-- The search ends, with the number of groups whose first id is `before`.
pub search_groups-splits :
    (ids : List Bytes) (before : Bytes → Bool) (fuel lo hi : ℕ)
    → All Short ids
    → AboveFrom 0 [] ids
    → Downward before
    → hi ≤ lo + fuel
    → lo ≤ hi
    → hi ≤ group_count ids
    → FirstsAre ids before true 0 lo
    → FirstsAre ids before false hi (group_count ids)
    → (r : ℕ) × (search_groups (column_of ids) before fuel lo hi ≡ ok r)
      × (r ≤ group_count ids)
      × FirstsAre ids before true 0 r
      × FirstsAre ids before false r (group_count ids)
unfolding search_groups
search_groups-splits ids before zero lo hi short above down enough order inside left right =
    let stop : ltb lo hi ≡ false = ground arith in
    let same : hi ≡ lo = omega arith in
    (lo, rw stop refl, omega arith, left, λ k id p. right k id (omega arith))
search_groups-splits ids before (suc fuel) lo hi short above down enough order inside left right =
    elim (Bool-cases (ltb lo hi)) [
      | inl go ↦
          let mid : ℕ = (lo + hi) / 2 in
          let (first, there) = get_elem?-ge ids (mid * restart) (ground arith) in
          let got = get-column_of ids (mid * restart) short there in
          elim (Bool-cases (before first)) [
            | inl t ↦
                let (r, found, bound, below, beyond) =
                  search_groups-splits ids before fuel (mid + 1) hi short above down (ground arith)
                    (ground arith) inside
                    (λ k id p q at.
                      earlier ids before k mid id first above down (omega arith) at there t)
                    right in
                (r, rw (go, got, t) found, bound, below, beyond)
            | inr f ↦
                let (r, found, bound, below, beyond) =
                  search_groups-splits ids before fuel lo mid short above down (ground arith)
                    (ground arith) (ground arith) left
                    (λ k id p q at. elim (Bool-cases (before id)) [
                      | inl t ↦
                          let contra = earlier ids before mid k first id above down p there at t in
                          cc
                      | inr g ↦ g
                    ]) in
                (r, rw (go, got, f) found, bound, below, beyond)
          ]
      | inr stop ↦
          let same : hi ≡ lo = ground arith in
          (lo, rw stop refl, ground arith, left, λ k id p. right k id (omega arith))
    ]
