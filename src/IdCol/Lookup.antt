-- ===== src/IdCol/Lookup.antt =====
-- `find` beside the linear search.
use turndb.Shared.{
  ℕ, zero, suc, ◌+◌, ◌-◌, ◌*◌, ◌/◌, ◌%◌, ◌≤◌, ◌<◌, min, ◌≡◌, refl, sym, ap, ◌∙◌, ◌⊎◌, inl, inr,
  Bool, true, false, not, ◌==◌, ltb, List, [], ◌∷◌, length, get_elem?, Option, none, some, All,
  Bytes, bytes_eq, bytes_eq_refl, bytes_eq→eq, bytes_lt, bytes_lt_irrefl, bytes_lt_trans,
  bytes_lt_total, ok, arith, Bool-cases,
}
use turndb.IdCol.Defs.{restart, entry, find_from, find, search_groups}
use turndb.IdCol.Stream.{Short, AboveFrom, restarts_from}
use turndb.IdCol.Access.{column_of, get-column_of, get_elem?-lt}
use turndb.IdCol.Order.{below_later, position, position-none, position-some}
use turndb.IdCol.Search.{Downward, FirstsAre, group_count, get_elem?-ge, search_groups-splits}

length-restarts_from :
    (i at : ℕ) (prev : Bytes) (ids : List Bytes)
    → length (restarts_from i at prev ids) ≡ (i + length ids + 15) / restart - (i + 15) / restart
unfolding restarts_from
length-restarts_from i at prev [] = omega arith
length-restarts_from i at prev (cur ∷ ids) = elim (Bool-cases (i % restart == 0)) [
  | inl t ↦
      rw (t, length-restarts_from (i + 1) (at + length (entry i prev cur)) cur ids) (ground arith)
  | inr f ↦
      rw (f, length-restarts_from (i + 1) (at + length (entry i prev cur)) cur ids) (ground arith)
]

pub restarts-group_count : (ids : List Bytes) → length (restarts_from 0 0 [] ids) ≡ group_count ids
restarts-group_count ids = length-restarts_from 0 0 [] ids ∙ omega arith

-- None of the ids from `lo` on, below `hi`, is the needle.
abbrev Absent : List Bytes → Bytes → ℕ → ℕ → Type 0
Absent ids needle lo hi = (k : ℕ) → lo ≤ k → k < hi → ¬ (get_elem? ids k ≡ some needle)

le_trans_lt : (a b c : Bytes) → bytes_lt b a ≡ false → bytes_lt b c ≡ true → bytes_lt a c ≡ true
le_trans_lt a b c h k = elim (Bool-cases (bytes_lt a b)) [
  | inl lt ↦ bytes_lt_trans a b c lt k
  | inr ge ↦ let same = bytes_lt_total a b ge h in cc
]

module _ (ids : List Bytes) (needle : Bytes) (above : AboveFrom 0 [] ids) where
  -- From an id above the needle on, no id is the needle.
  absent_from :
      (i k : ℕ) (id : Bytes)
      → get_elem? ids i ≡ some id
      → bytes_lt needle id ≡ true
      → i ≤ k
      → ¬ (get_elem? ids k ≡ some needle)
  absent_from i k id there gt le at =
      let self = bytes_lt_irrefl needle in
      elim (Bool-cases (ltb i k)) [
        | inl lt ↦
            let later = below_later 0 [] ids i k above there at (ground arith) in
            let loop = bytes_lt_trans needle id needle gt later in cc
        | inr ge ↦
            let same : i ≡ k = ground arith in let here = ap (λ (j : ℕ). get_elem? ids j) same in cc
      ]

  -- Before an id that is not above the needle, no id is the needle.
  absent_before :
      (i k : ℕ) (id : Bytes)
      → get_elem? ids i ≡ some id
      → bytes_lt needle id ≡ false
      → k < i
      → ¬ (get_elem? ids k ≡ some needle)
  absent_before i k id there le lt at = let q = below_later 0 [] ids k i above at there lt in cc

  absent_at :
      (i k : ℕ) (id : Bytes)
      → get_elem? ids i ≡ some id
      → bytes_eq id needle ≡ false
      → i ≡ k
      → ¬ (get_elem? ids k ≡ some needle)
  absent_at i k id there ne e at =
      let here = ap (λ (j : ℕ). get_elem? ids j) e in let self = bytes_eq_refl needle in cc

find_from-column_of :
    (ids : List Bytes) (needle : Bytes) (i n : ℕ)
    → All Short ids
    → AboveFrom 0 [] ids
    → i + n ≤ length ids
    → ((find_from (column_of ids) needle i n ≡ ok none) × Absent ids needle i (i + n))
      ⊎ ((k : ℕ) × (find_from (column_of ids) needle i n ≡ ok (some k))
          × (get_elem? ids k ≡ some needle))
unfolding find_from
find_from-column_of ids needle i zero short above inside = inl (refl, λ k p q. omega arith)
find_from-column_of ids needle i (suc n) short above inside =
    let (id, there) = get_elem?-ge ids i (omega arith) in
    let got = get-column_of ids i short there in
    elim (Bool-cases (bytes_eq id needle)) [
      | inl e ↦ inr (i, rw (got, e) refl, let same = bytes_eq→eq id needle e in cc)
      | inr ne ↦ elim (Bool-cases (bytes_lt needle id)) [
        | inl gt ↦
            inl (rw (got, ne, gt) refl, λ k p q. absent_from ids needle above i k id there gt p)
        | inr ge ↦ elim (find_from-column_of ids needle (i + 1) n short above (omega arith)) [
          | inl (stop, absent) ↦ inl (
            rw (got, ne, ge) stop,
            λ k p q. elim (Bool-cases (i == k)) [
              | inl e ↦ absent_at ids needle above i k id there ne (ground arith)
              | inr f ↦ absent k (ground arith) (omega arith)
            ],
          )
          | inr (k, stop, at) ↦ inr (k, rw (got, ne, ge) stop, at)
        ]
      ]
    ]

-- The search over all restart points of a column.
pub groups_split :
    (ids : List Bytes) (before : Bytes → Bool)
    → All Short ids
    → AboveFrom 0 [] ids
    → Downward before
    → (r : ℕ) × (search_groups
          (column_of ids)
          before
          (length (restarts_from 0 0 [] ids))
          0
          (length (restarts_from 0 0 [] ids))
        ≡ ok r)
      × (r ≤ group_count ids)
      × FirstsAre ids before true 0 r
      × FirstsAre ids before false r (group_count ids)
groups_split ids before short above down = rw (restarts-group_count ids) (
    search_groups-splits ids before (group_count ids) 0 (group_count ids) short above down
      (omega arith) (omega arith) (omega arith) (λ k id p q. nothing k p q)
      (λ k id p q. nothing k p q))
  where
    nothing : {X : Type 0} {n : ℕ} (k : ℕ) → n ≤ k → k < n → X
    nothing k p q = let no : 1 ≤ 0 = omega arith in elim no [ ]

pub not-true : (b : Bool) → not b ≡ true → b ≡ false
not-true true h = cc
not-true false h = refl

not-false : (b : Bool) → not b ≡ false → b ≡ true
not-false true h = refl
not-false false h = cc

-- The groups that `find` skips do not hold the needle.
skipped-Absent :
    (ids : List Bytes) (needle : Bytes) (lo k : ℕ)
    → AboveFrom 0 [] ids
    → 0 < lo
    → lo ≤ group_count ids
    → FirstsAre ids (λ first. not (bytes_lt needle first)) true 0 lo
    → FirstsAre ids (λ first. not (bytes_lt needle first)) false lo (group_count ids)
    → Absent ids needle ((lo - 1) * restart) (min ((lo - 1) * restart + restart) (length ids))
    → ¬ (get_elem? ids k ≡ some needle)
skipped-Absent ids needle lo k above p bound below beyond absent at =
    let inside = get_elem?-lt ids k at in
    elim (Bool-cases (ltb k ((lo - 1) * restart))) [
      | inl lt ↦
          let (id, there) = get_elem?-ge ids ((lo - 1) * restart) (ground arith) in
          absent_before ids needle above ((lo - 1) * restart) k id there
            (not-true _ (below (lo - 1) id (omega arith) (omega arith) there)) (ground arith) at
      | inr ge ↦ elim (Bool-cases (ltb k (lo * restart))) [
        | inl lt ↦ absent k (ground arith) (ground arith) at
        | inr more ↦
            let (id, there) = get_elem?-ge ids (lo * restart) (ground arith) in
            absent_from ids needle above (lo * restart) k id there
              (not-false _ (beyond lo id (omega arith) (ground arith) there)) (ground arith) at
      ]
    ]

-- `find` is the linear search.
pub find-column_of :
    (ids : List Bytes) (needle : Bytes)
    → All Short ids
    → AboveFrom 0 [] ids
    → find (column_of ids) needle ≡ ok (position needle ids)
unfolding find
find-column_of [] needle short above = rw (position-none needle [] (λ k h. cc)) refl
find-column_of (x ∷ ids) needle short above =
    let all = x ∷ ids in
    let live : (suc (length ids) == 0) ≡ false = ground arith in
    let (lo, found, bound, below, beyond) =
      groups_split all (λ first. not (bytes_lt needle first)) short above
        (λ a b lt h. down a b lt h) in
    elim (Bool-cases (lo == 0)) [
      | inl z ↦
          let gt = not-false (bytes_lt needle x) (beyond 0 x (ground arith) (omega arith) refl) in
          rw
            (
              live,
              found,
              z,
              position-none needle all
                  (λ k. absent_from all needle above 0 k x refl gt (omega arith)),
            )
            refl
      | inr nz ↦
          rw (live, found, nz)
            (elim (find_from-column_of all needle ((lo - 1) * restart)
              (min ((lo - 1) * restart + restart) (length all) - (lo - 1) * restart) short above
              (ground arith)) [
                | inl (stop, absent) ↦
                    stop
                    ∙ ap (λ (r : Option ℕ). ok r)
                        (sym (
                          position-none needle all (λ k.
                            skipped-Absent all needle lo k above (ground arith) bound below beyond
                              (λ j p q. absent j p (ground arith)))))
                | inr (k, stop, at) ↦
                    stop
                    ∙ ap (λ (r : Option ℕ). ok r) (sym (position-some 0 [] needle all k above at))
              ])
    ]
  where
    down :
        (a b : Bytes)
        → bytes_lt a b ≡ true
        → not (bytes_lt needle b) ≡ true
        → not (bytes_lt needle a) ≡ true
    down a b lt h = elim (Bool-cases (bytes_lt needle a)) [
      | inl t ↦
          let q = bytes_lt_trans needle a b t lt in let r = not-true (bytes_lt needle b) h in cc
      | inr f ↦ rw f refl
    ]
