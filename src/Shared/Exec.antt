-- ===== src/Shared/Exec.antt =====
-- Methods on `&mut self` that may fail: what was changed before an error stays changed.
use mathlib.Core.Path.{◌≡◌, refl, ap}
use mathlib.Core.Logic.{◌⊎◌, inl, inr}
use mathlib.Core.Bool.{Bool, true, false}
use turndb.Shared.Tests.{if◌then◌else◌}
use turndb.Shared.Errors.{Error, Result, ok, err, OnOk}

abbrev pub Exec {ℓ} : Type ℓ → Type ℓ → Type ℓ
Exec S A = S → Result A × S

module _ {ℓ} {S A : Type ℓ} where
  abbrev pub pure : A → Exec S A
  pure a s = (ok a, s)

  abbrev pub lift : Result A → Exec S A
  lift r s = (r, s)

module _ {ℓ} {S A B : Type ℓ} where
  abbrev pub continue : Result A → (A → Exec S B) → Exec S B
  continue (ok a) f s = f a s
  continue (err e) f s = (err e, s)

  infixl 5 ◌>>=◌ ◌>>◌
  abbrev pub ◌>>=◌ : Exec S A → (A → Exec S B) → Exec S B
  ◌>>=◌ m f s = let (r, s') = m s in continue r f s'

  abbrev pub ◌>>◌ : Exec S A → Exec S B → Exec S B
  m >> n = m >>= λ _. n

-- What a sequence that succeeds has done.
module _ {ℓ} {S A B : Type ℓ} where
  pub continue-inv :
      (r : Result A) (f : A → Exec S B) (s : S) {b : B} {t : S}
      → continue r f s ≡ (ok b, t)
      → (a : A) × (r ≡ ok a) × (f a s ≡ (ok b, t))
  continue-inv (ok a) f s h = (a, refl, h)
  continue-inv (err e) f s {b} {t} h = absurd (error_is_not_ok (ap (λ (u : Result B × S). u.0) h))
    where
      error_is_not_ok : ¬ (err e ≡ ok b)
      error_is_not_ok k = cc

  pub >>=-inv :
      (m : Exec S A) (f : A → Exec S B) (s : S) {b : B} {t : S}
      → (m >>= f) s ≡ (ok b, t)
      → (a : A) × ((m s).0 ≡ ok a) × (f a (m s).1 ≡ (ok b, t))
  >>=-inv m f s h = continue-inv (m s).0 f (m s).1 h

  -- A sequence that fails has failed in the first part, or in the second behind the first.
  pub continue-err :
      (r : Result A) (f : A → Exec S B) (s : S) {e : Error} {t : S}
      → continue r f s ≡ (err e, t)
      → ((r ≡ err e) × (s ≡ t)) ⊎ ((a : A) × (r ≡ ok a) × (f a s ≡ (err e, t)))
  continue-err (ok a) f s h = inr (a, refl, h)
  continue-err (err failed) f s {e} h =
      inl (same_error (ap (λ (u : Result B × S). u.0) h), ap (λ (u : Result B × S). u.1) h)
    where
      same_error : ◌≡◌ {A = Result B} (err failed) (err e) → ◌≡◌ {A = Result A} (err failed) (err e)
      same_error k = cc

-- A method that keeps `I` of the state, whether it fails or not, and returns values in `Q`.
abbrev pub Keeps {ℓ κ μ} :
    {S A : Type ℓ} → (S → Type κ) → (A → Type μ) → Exec S A → Type (ℓ ⊔ κ ⊔ μ)
Keeps {S = S} I Q m = (s : S) → I s → I (m s).1 × OnOk Q (m s).0

module _ {ℓ κ μ} {S A : Type ℓ} (I : S → Type κ) (Q : A → Type μ) where
  pub lift-Keeps : (r : Result A) → OnOk Q r → Keeps I Q (lift r)
  lift-Keeps r h s i = (i, h)

  pub pure-Keeps : (a : A) → Q a → Keeps I Q (pure a)
  pure-Keeps a h s i = (i, h)

module _ {ℓ κ μ} {S A B : Type ℓ} (I : S → Type κ) (P : A → Type μ) (Q : B → Type μ) where
  continue-Keeps :
      (r : Result A) (f : A → Exec S B)
      → OnOk P r
      → ((a : A) → P a → Keeps I Q (f a))
      → Keeps I Q (continue r f)
  continue-Keeps (ok a) f p h s i = h a p s i
  continue-Keeps (err e) f p h s i = (i, tt)

  pub >>=-Keeps :
      (m : Exec S A) (f : A → Exec S B)
      → Keeps I P m
      → ((a : A) → P a → Keeps I Q (f a))
      → Keeps I Q (m >>= f)
  >>=-Keeps m f h k s i = let (j, p) = h s i in continue-Keeps (m s).0 f p k (m s).1 j

module _ {ℓ κ μ} {S A : Type ℓ} (I : S → Type κ) (Q : A → Type μ) where
  pub if-Keeps :
      (b : Bool) (m n : Exec S A)
      → Keeps I Q m
      → Keeps I Q n
      → (s : S) → I s
      → I ((if b then m else n) s).1 × OnOk Q ((if b then m else n) s).0
  if-Keeps true m n h k = h
  if-Keeps false m n h k = k

-- What holds of the value and of the state behind a method that succeeds.
abbrev pub Ends {ℓ κ} : {S A : Type ℓ} → (A → S → Type κ) → Result A × S → Type κ
Ends P (r, s) = OnOk (λ a. P a s) r

module _ {ℓ κ} {S A B : Type ℓ} (P : B → S → Type κ) where
  continue-Ends :
      (r : Result A) (f : A → Exec S B) (s : S)
      → ((a : A) → r ≡ ok a → Ends P (f a s))
      → Ends P (continue r f s)
  continue-Ends (ok a) f s h = h a refl
  continue-Ends (err e) f s h = tt

  pub >>=-Ends :
      (m : Exec S A) (f : A → Exec S B) (s : S)
      → ((a : A) → (m s).0 ≡ ok a → Ends P (f a (m s).1))
      → Ends P ((m >>= f) s)
  >>=-Ends m f s h = continue-Ends (m s).0 f (m s).1 h
