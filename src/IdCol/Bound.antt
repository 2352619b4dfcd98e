-- ===== src/IdCol/Bound.antt =====
-- `lower_bound`: the place where a range scan starts.
use turndb.Shared.{
  ℕ, zero, suc, ◌+◌, ◌-◌, ◌*◌, ◌≤◌, ◌<◌, ◌≡◌, refl, sym, ap, inl, inr, Bool, true, false, ◌==◌, ltb,
  List, [], ◌∷◌, length, get_elem?, some, All, Bytes, bytes_lt, bytes_lt_trans, ok, arith,
  Bool-cases,
}
use turndb.IdCol.Defs.{restart, lower_bound_from, lower_bound}
use turndb.IdCol.Stream.{Short, AboveFrom}
use turndb.IdCol.Access.{column_of, get-column_of, get_elem?-lt}
use turndb.IdCol.Order.{below_later, rank, rank_eq}
use turndb.IdCol.Search.{FirstsAre, group_count, get_elem?-ge}
use turndb.IdCol.Lookup.{groups_split}

-- The ids from `lo` on, below `hi`, are below the needle or not.
abbrev Compared : List Bytes → Bytes → Bool → ℕ → ℕ → Type 0
Compared ids needle b lo hi =
    (k : ℕ) (id : Bytes) → lo ≤ k → k < hi → get_elem? ids k ≡ some id → bytes_lt id needle ≡ b

module _ (ids : List Bytes) (needle : Bytes) (above : AboveFrom 0 [] ids) where
  all_from :
      (i : ℕ) (id : Bytes)
      → get_elem? ids i ≡ some id
      → bytes_lt id needle ≡ false
      → Compared ids needle false i (length ids)
  all_from i id there ge k other le inside at = elim (Bool-cases (ltb i k)) [
    | inl lt ↦
        let later = below_later 0 [] ids i k above there at (ground arith) in
        elim (Bool-cases (bytes_lt other needle)) [
          | inl t ↦ let loop = bytes_lt_trans id other needle later t in cc
          | inr f ↦ f
        ]
    | inr eq ↦
        let same : i ≡ k = ground arith in let here = ap (λ (j : ℕ). get_elem? ids j) same in cc
  ]

  all_before :
      (i : ℕ) (id : Bytes)
      → get_elem? ids i ≡ some id
      → bytes_lt id needle ≡ true
      → Compared ids needle true 0 i
  all_before i id there lt k other le inside at =
      bytes_lt_trans other id needle (below_later 0 [] ids k i above at there inside) lt

  all_upto :
      (i : ℕ) (id : Bytes)
      → get_elem? ids i ≡ some id
      → bytes_lt id needle ≡ true
      → Compared ids needle true 0 (i + 1)
  all_upto i id there lt k other le inside at = elim (Bool-cases (k == i)) [
    | inl e ↦
        let same : k ≡ i = ground arith in let here = ap (λ (j : ℕ). get_elem? ids j) same in cc
    | inr f ↦ all_before i id there lt k other le (ground arith) at
  ]

  -- The scan ends at the first id that is not below the needle.
  lower_bound_from-column_of :
      (i n : ℕ)
      → All Short ids
      → i + n ≡ length ids
      → Compared ids needle true 0 i
      → (r : ℕ) × (lower_bound_from (column_of ids) needle i n ≡ ok r)
        × (r ≤ length ids)
        × Compared ids needle true 0 r
        × Compared ids needle false r (length ids)
  unfolding lower_bound_from
  lower_bound_from-column_of i zero short whole below = (
    length ids,
    refl,
    omega arith,
    (λ k id p q at. below k id p (omega arith) at),
    λ k id p q at. let no : 1 ≤ 0 = omega arith in elim no [ ],
  )
  lower_bound_from-column_of i (suc n) short whole below =
      let (id, there) = get_elem?-ge ids i (omega arith) in
      let got = get-column_of ids i short there in
      elim (Bool-cases (bytes_lt id needle)) [
        | inl lt ↦
            let (r, stop, inside, left, right) =
              lower_bound_from-column_of (i + 1) n short (omega arith) (all_upto i id there lt) in
            (r, rw (got, lt) stop, inside, left, right)
        | inr ge ↦ (i, rw (got, ge) refl, omega arith, below, all_from i id there ge)
      ]

pub lower_bound-column_of :
    (ids : List Bytes) (needle : Bytes)
    → All Short ids
    → AboveFrom 0 [] ids
    → lower_bound (column_of ids) needle ≡ ok (rank needle ids)
unfolding lower_bound rank
lower_bound-column_of [] needle short above = refl
lower_bound-column_of (x ∷ ids) needle short above =
    let all = x ∷ ids in
    let live : (suc (length ids) == 0) ≡ false = ground arith in
    let (lo, found, bound, below, beyond) =
      groups_split all (λ first. bytes_lt first needle) short above
        (λ a b lt h. bytes_lt_trans a b needle lt h) in
    let (r, stop, inside, left, right) =
      lower_bound_from-column_of all needle above ((lo - 1) * restart)
        (length all - (lo - 1) * restart) short (ground arith)
        (λ k id p q at. start lo bound below k id p q at) in
    rw (live, found, stop)
      (ap (λ (k : ℕ). ok k)
        (sym (
          rank_eq needle all r inside (λ k id p at. left k id (omega arith) p at)
            (λ k id p at. right k id p (get_elem?-lt all k at) at))))
  where
    start :
        (lo : ℕ)
        → lo ≤ group_count (x ∷ ids)
        → FirstsAre (x ∷ ids) (λ first. bytes_lt first needle) true 0 lo
        → Compared (x ∷ ids) needle true 0 ((lo - 1) * restart)
    start lo bound below k id p q at =
        let (first, there) = get_elem?-ge (x ∷ ids) ((lo - 1) * restart) (ground arith) in
        all_before (x ∷ ids) needle above ((lo - 1) * restart) first there
          (below (lo - 1) first (omega arith) (omega arith) there) k id p q at
