-- ===== src/IdCol/Order.antt =====
-- What the strict order of the ids says of any two of them, and the linear reference searches.
use mathlib.Core.Option
use turndb.Shared.{
  ℕ, zero, suc, ◌+◌, ◌≤◌, ◌<◌, ◌≡◌, refl, ap, inl, inr, true, false, if◌then◌else◌, List, [], ◌∷◌,
  length, get_elem?, Option, none, some, Bytes, bytes_eq, bytes_eq_refl, bytes_eq→eq, bytes_lt,
  bytes_lt_irrefl, bytes_lt_trans, arith, Bool-cases,
}
use turndb.IdCol.Stream.{AboveFrom}

-- The index of the first id that is the needle.
unfoldable pub position : Bytes → List Bytes → Option ℕ
position needle [] = none
position needle (id ∷ ids) =
    if bytes_eq id needle then some 0 else Option.map suc (position needle ids)

-- How many ids stand before the first one that is not below the needle.
unfoldable pub rank : Bytes → List Bytes → ℕ
rank needle [] = 0
rank needle (id ∷ ids) = if bytes_lt id needle then suc (rank needle ids) else 0

above_prev :
    (i : ℕ) (prev : Bytes) (ids : List Bytes) (k : ℕ) {id : Bytes}
    → 0 < i
    → AboveFrom i prev ids
    → get_elem? ids k ≡ some id
    → bytes_lt prev id ≡ true
unfolding AboveFrom
above_prev i prev [] k p above h = cc
above_prev i prev (x ∷ ids) zero p above h = let q = above.0 p in cc
above_prev i prev (x ∷ ids) (suc k) {id} p above h =
    bytes_lt_trans prev x id (above.0 p) (above_prev (i + 1) x ids k (omega arith) above.1 h)

-- An id that stands before another one is below it.
pub below_later :
    (i : ℕ) (prev : Bytes) (ids : List Bytes) (j k : ℕ) {a b : Bytes}
    → AboveFrom i prev ids
    → get_elem? ids j ≡ some a
    → get_elem? ids k ≡ some b
    → j < k
    → bytes_lt a b ≡ true
unfolding AboveFrom
below_later i prev [] j k above h h' lt = cc
below_later i prev (x ∷ ids) j zero above h h' lt = elim lt [ ]
below_later i prev (x ∷ ids) zero (suc k) {a} {b} above h h' lt =
    let q = above_prev (i + 1) x ids k (omega arith) above.1 h' in cc
below_later i prev (x ∷ ids) (suc j) (suc k) above h h' lt =
    below_later (i + 1) x ids j k above.1 h h' (omega arith)

bytes_lt→ne : (a b : Bytes) → bytes_lt a b ≡ true → bytes_eq a b ≡ false
bytes_lt→ne a b h = elim (Bool-cases (bytes_eq a b)) [
  | inl e ↦ let same = bytes_eq→eq a b e in let q = bytes_lt_irrefl b in cc
  | inr e ↦ e
]

pub position-none :
    (needle : Bytes) (ids : List Bytes)
    → ((k : ℕ) → ¬ (get_elem? ids k ≡ some needle))
    → position needle ids ≡ none
unfolding position
position-none needle [] h = refl
position-none needle (x ∷ ids) h = elim (Bool-cases (bytes_eq x needle)) [
  | inl e ↦ elim (h 0 (ap (λ (y : Bytes). some y) (bytes_eq→eq x needle e))) [ ]
  | inr e ↦ rw (e, position-none needle ids (λ k. h (suc k))) refl
]

pub position-some :
    (i : ℕ) (prev needle : Bytes) (ids : List Bytes) (k : ℕ)
    → AboveFrom i prev ids
    → get_elem? ids k ≡ some needle
    → position needle ids ≡ some k
unfolding position AboveFrom
position-some i prev needle [] k above h = cc
position-some i prev needle (x ∷ ids) zero above h =
    rw (Option.some-injective _ _ h, bytes_eq_refl needle) refl
position-some i prev needle (x ∷ ids) (suc k) above h =
    rw
      (
        bytes_lt→ne x needle (above_prev (i + 1) x ids k (omega arith) above.1 h),
        position-some (i + 1) x needle ids k above.1 h,
      )
      refl

-- The rank is the place where the ids stop being below the needle.
pub rank_eq :
    (needle : Bytes) (ids : List Bytes) (r : ℕ)
    → r ≤ length ids
    → ((k : ℕ) (id : Bytes) → k < r → get_elem? ids k ≡ some id → bytes_lt id needle ≡ true)
    → ((k : ℕ) (id : Bytes) → r ≤ k → get_elem? ids k ≡ some id → bytes_lt id needle ≡ false)
    → rank needle ids ≡ r
unfolding rank
rank_eq needle [] r le below above = omega arith
rank_eq needle (x ∷ ids) zero le below above = rw (above 0 x (omega arith) refl) refl
rank_eq needle (x ∷ ids) (suc r) le below above =
    rw
      (
        below 0 x (omega arith) refl,
        rank_eq needle ids r (omega arith) (λ k id p. below (suc k) id (omega arith))
            (λ k id p. above (suc k) id (omega arith)),
      )
      refl
