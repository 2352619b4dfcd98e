-- ===== src/Shared/Maps.antt =====
-- `BTreeMap<String, V>` as the list of its entries, in the ascending order of their keys.
use mathlib.Core.Path.{◌≡◌, refl, ap}
use mathlib.Core.Bool.{Bool, true, false}
use mathlib.Core.List.{List, [], ◌∷◌, ◌++◌}
use mathlib.Core.Option.{Option, none, some}
use native.Mathlib.Omega.{arith}
use turndb.Shared.Tests.{if◌then◌else◌}
use turndb.Shared.Strings.{Bytes, bytes_eq, bytes_lt, bytes_lt_trans}

pub bytes_lt-neq : (a b : Bytes) → bytes_lt a b ≡ true → bytes_eq a b ≡ false
unfolding bytes_lt bytes_eq
bytes_lt-neq [] [] h = cc
bytes_lt-neq [] (y ∷ ys) h = refl
bytes_lt-neq (x ∷ xs) [] h = cc
bytes_lt-neq (x ∷ xs) (y ∷ ys) h = ground (arith, bytes_lt-neq xs ys)

pub bytes_lt-asym : (a b : Bytes) → bytes_lt a b ≡ true → bytes_lt b a ≡ false
unfolding bytes_lt
bytes_lt-asym [] [] h = cc
bytes_lt-asym [] (y ∷ ys) h = refl
bytes_lt-asym (x ∷ xs) [] h = cc
bytes_lt-asym (x ∷ xs) (y ∷ ys) h = ground (arith, bytes_lt-asym xs ys)

module _ {ℓ} {V : Type ℓ} where
  unfoldable pub find : Bytes → List (Bytes × V) → Option V
  find k [] = none
  find k ((key, v) ∷ entries) = if bytes_eq key k then some v else find k entries

  abbrev pub contains : Option V → Bool
  contains none = false
  contains (some v) = true

  unfoldable pub insert : Bytes → V → List (Bytes × V) → List (Bytes × V)
  insert k v [] = (k, v) ∷ []
  insert k v ((key, w) ∷ entries) =
      let rest = insert k v entries in
      if bytes_eq key k
      then (k, v) ∷ entries
      else if bytes_lt k key
      then (k, v) ∷ (key, w) ∷ entries
      else (key, w) ∷ rest

  unfoldable pub remove : Bytes → List (Bytes × V) → List (Bytes × V)
  remove k [] = []
  remove k ((key, w) ∷ entries) =
      let rest = remove k entries in if bytes_eq key k then entries else (key, w) ∷ rest

  -- Every key of the map is below `k`.
  abbrev pub IsBelow : Bytes → List (Bytes × V) → Type 0
  IsBelow k [] = Unit {0}
  IsBelow k ((key, v) ∷ entries) = (bytes_lt key k ≡ true) × IsBelow k entries

  pub find-IsBelow : (k : Bytes) (m : List (Bytes × V)) → IsBelow k m → find k m ≡ none
  unfolding find
  find-IsBelow k [] h = refl
  find-IsBelow k ((key, v) ∷ entries) h = rw (bytes_lt-neq key k h.0) (find-IsBelow k entries h.1)

  -- A key above all the others goes to the end.
  pub insert-IsBelow :
      (k : Bytes) (v : V) (m : List (Bytes × V)) → IsBelow k m → insert k v m ≡ m ++ (k, v) ∷ []
  unfolding insert
  insert-IsBelow k v [] h = refl
  insert-IsBelow k v ((key, w) ∷ entries) h =
      rw (bytes_lt-neq key k h.0, bytes_lt-asym key k h.0)
        (ap (λ (t : List (Bytes × V)). (key, w) ∷ t) (insert-IsBelow k v entries h.1))

  pub IsBelow-trans :
      (a b : Bytes) (m : List (Bytes × V)) → bytes_lt a b ≡ true → IsBelow a m → IsBelow b m
  IsBelow-trans a b [] h k = tt
  IsBelow-trans a b ((key, v) ∷ entries) h k =
      (bytes_lt_trans key a b k.0 h, IsBelow-trans a b entries h k.1)

  pub IsBelow-append :
      (k : Bytes) (m n : List (Bytes × V)) → IsBelow k m → IsBelow k n → IsBelow k (m ++ n)
  IsBelow-append k [] n h l = l
  IsBelow-append k ((key, v) ∷ entries) n h l = (h.0, IsBelow-append k entries n h.1 l)
