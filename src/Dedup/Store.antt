-- ===== src/Dedup/Store.antt =====
-- Storing an entry in the empty slot where its probe sequence stops.
use turndb.Shared.{
  ℕ, zero, suc, ◌^◌, ◌<◌, ◌≡◌, refl, sym, subst, ap, ◌∙◌, ◌⊎◌, inl, inr, true, false, ◌==◌, List,
  [], ◌∷◌, length, Option, none, some, Bytes, bytes_eq, ok, arith, Bool-cases,
}
use turndb.Dedup.Defs.{Loc, Slot, empty_hash, is_vacant, stops, slot_at, store_slot}
use turndb.Dedup.Probe.{place, Passed, slot-inj, vacant-stops, slot_at-lt}
use turndb.Dedup.Slots.{home, OnPath, Reachable, Holds}

pub length-store_slot :
    (slots : List Slot) (i : ℕ) (new : Slot) → length (store_slot slots i new) ≡ length slots
unfolding store_slot
length-store_slot [] i new = refl
length-store_slot (x ∷ slots) zero new = refl
length-store_slot (x ∷ slots) (suc i) new = ap suc (length-store_slot slots i new)

pub store_slot_here :
    (slots : List Slot) (i : ℕ) (new : Slot)
    → i < length slots
    → slot_at (store_slot slots i new) i ≡ ok new
unfolding store_slot slot_at
store_slot_here [] i new lt = elim lt [ ]
store_slot_here (x ∷ slots) zero new lt = refl
store_slot_here (x ∷ slots) (suc i) new lt = store_slot_here slots i new (omega arith)

store_slot_other :
    (slots : List Slot) (i j : ℕ) (new : Slot)
    → ¬ (j ≡ i)
    → slot_at (store_slot slots i new) j ≡ slot_at slots j
unfolding store_slot slot_at
store_slot_other [] i j new ne = refl
store_slot_other (x ∷ slots) zero zero new ne = elim (ne refl) [ ]
store_slot_other (x ∷ slots) zero (suc j) new ne = refl
store_slot_other (x ∷ slots) (suc i) zero new ne = refl
store_slot_other (x ∷ slots) (suc i) (suc j) new ne =
    store_slot_other slots i j new (λ e. ne (ap suc e))

-- A slot at another index than the stored one, or the stored one.
stored-cases :
    (slots : List Slot) (i j : ℕ) (new s : Slot)
    → i < length slots
    → slot_at (store_slot slots i new) j ≡ ok s
    → ((j ≡ i) × (s ≡ new)) ⊎ ((¬ (j ≡ i)) × (slot_at slots j ≡ ok s))
stored-cases slots i j new s lt at = elim (Bool-cases (j == i)) [
  | inl e ↦
      let same : j ≡ i = ground arith in
      inl (
        same,
        slot-inj s new (
            sym at
            ∙ ap (λ (k : ℕ). slot_at (store_slot slots i new) k) same
            ∙ store_slot_here slots i new lt),
      )
  | inr n ↦
      let other : ¬ (j ≡ i) = λ (e : j ≡ i). ground arith in
      inr (other, sym (store_slot_other slots i j new other) ∙ at)
]

-- An entry is at another index than an empty slot.
apart :
    (slots : List Slot) (i j : ℕ) (a b : Slot)
    → slot_at slots i ≡ ok a
    → slot_at slots j ≡ ok b
    → is_vacant a ≡ false
    → is_vacant b ≡ true
    → ¬ (i ≡ j)
apart slots i j a b at_a at_b full free same =
    let one = slot-inj a b (sym at_a ∙ ap (λ (k : ℕ). slot_at slots k) same ∙ at_b) in
    let clash = sym full ∙ ap (λ (y : Slot). is_vacant y) one ∙ free in cc

passes-full : (hash : Bytes) (s : Slot) → stops hash s ≡ false → is_vacant s ≡ false
passes-full hash s pass = elim (Bool-cases (is_vacant s)) [
  | inl v ↦ let clash = sym pass ∙ vacant-stops hash s v in cc
  | inr v ↦ v
]

module _ (c : ℕ) (slots : List Slot) (i : ℕ) (old new : Slot) (at : slot_at slots i ≡ ok old)
    (free : is_vacant old ≡ true) where
  -- A probe sequence passes entries only, so a store into an empty slot does not stop it earlier.
  Passed-store_slot :
      (hash : Bytes) (start n : ℕ)
      → Passed c slots hash start n
      → Passed c (store_slot slots i new) hash start n
  Passed-store_slot hash start n passed d lt =
      let (s, (there, pass)) = passed d lt in
      let other = apart slots (place c start d) i s old there at (passes-full hash s pass) free in
      (s, (store_slot_other slots i (place c start d) new other ∙ there, pass))

  pub Reachable-store_slot :
      (d : ℕ)
      → Reachable c slots
      → d < 2 ^ c
      → place c (home c new.hash) d ≡ i
      → Passed c slots new.hash (home c new.hash) d
      → Reachable c (store_slot slots i new)
  unfolding Reachable
  Reachable-store_slot d reach inside here passed j s there full =
      elim (stored-cases slots i j new s (slot_at-lt slots i at) there) [
        | inl (e, same) ↦
            subst (λ (y : Slot). OnPath c (store_slot slots i new) j y) (sym same)
              (d, (inside, here ∙ sym e, Passed-store_slot new.hash (home c new.hash) d passed))
        | inr (ne, there_old) ↦
            let (k, (inside_k, here_k, passed_k)) = reach j s there_old full in
            (k, (inside_k, here_k, Passed-store_slot s.hash (home c s.hash) k passed_k))
      ]

  -- Other hashes are held as before.
  pub Holds-store_slot :
      (hash : Bytes) (held : Option Loc)
      → bytes_eq hash empty_hash ≡ false
      → ¬ (new.hash ≡ hash)
      → Holds slots hash held
      → Holds (store_slot slots i new) hash held
  unfolding Holds
  Holds-store_slot hash none full other held = λ j s there.
      elim (stored-cases slots i j new s (slot_at-lt slots i at) there) [
        | inl (e, same) ↦ λ h. other (sym (ap (λ (y : Slot). y.hash) same) ∙ h)
        | inr (ne, there_old) ↦ held j s there_old
      ]
  Holds-store_slot hash (some loc) full other (j, there) =
      (j, store_slot_other slots i j new (apart slots j i _ old there at full free) ∙ there)
