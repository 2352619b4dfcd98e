-- ===== src/Cache/Forget.antt =====
-- `forget`, for a part that was closed.
use turndb.Shared.{
  ℕ, ◌≡◌, refl, sym, subst, ap, ◌∙◌, inl, inr, Bool, true, false, ◌==◌, if◌then◌else◌, List, [],
  ◌∷◌, ◌++◌, append_assoc, Option, some, All, All-append, arith, Bool-cases,
}
use turndb.Cache.Defs.{
  Kind, Entry, SectionCache, is_at, lookup, without, release, remove, forget_each, forget,
}
use turndb.Cache.Entries.{is_at_refl}
use turndb.Cache.Budget.{IsBalanced, remove-Removed}

-- The entries of the other parts.
unfoldable pub others : ℕ → List Entry → List Entry
others part [] = []
others part (e ∷ es) = let rest = others part es in if e.part == part then rest else e ∷ rest

abbrev IsOther : ℕ → Entry → Type 0
IsOther part e = (e.part == part) ≡ false

other_is_at : (part : ℕ) (kind : Kind) (e : Entry) → IsOther part e → is_at part kind e ≡ false
other_is_at part kind e other = rw other refl

-- Behind the entries of other parts the first entry of the part is found and removed.
without-append :
    (part : ℕ) (kind : Kind) (kept es : List Entry) (e : Entry)
    → All (IsOther part) kept
    → is_at part kind e ≡ true
    → (lookup part kind (kept ++ e ∷ es) ≡ some e)
      × (without part kind (kept ++ e ∷ es) ≡ kept ++ es)
unfolding lookup without
without-append part kind [] es e other here = (
  ap (λ (b : Bool). if b then some e else lookup part kind es) here,
  ap (λ (b : Bool). if b then es else e ∷ without part kind es) here,
)
without-append part kind (x ∷ kept) es e other here =
    let miss = other_is_at part kind x other.0 in
    let (found, gone) = without-append part kind kept es e other.1 here in
    (
      ap (λ (b : Bool). if b then some x else lookup part kind (kept ++ e ∷ es)) miss ∙ found,
      ap (λ (b : Bool). if b then kept ++ e ∷ es else x ∷ without part kind (kept ++ e ∷ es)) miss
          ∙ ap (λ (t : List Entry). x ∷ t) gone,
    )

module _ (size part : ℕ) where
  -- What the loop leaves: the entries of other parts, counted.
  abbrev Forgotten : SectionCache → List Entry → SectionCache → Type 0
  Forgotten c entries later =
      (later.entries ≡ entries) × IsBalanced size later × (later.budget ≡ c.budget)

  remove-append :
      (kept es : List Entry) (e : Entry) (c : SectionCache)
      → All (IsOther part) kept
      → (e.part == part) ≡ true
      → c.entries ≡ kept ++ e ∷ es
      → IsBalanced size c
      → Forgotten c (kept ++ es) (remove size part e.kind c)
  unfolding remove
  remove-append kept es e c other own whole counted =
      let same : e.part ≡ part = ground arith in
      let here = ap (λ (p : ℕ). is_at p e.kind e) (sym same) ∙ is_at_refl e in
      let (found, gone) = without-append part e.kind kept es e other here in
      let looked = ap (λ (t : List Entry). lookup part e.kind t) whole ∙ found in
      let dropped = ap (λ (t : List Entry). without part e.kind t) whole ∙ gone in
      let (left, lighter, fewer, budget) =
        remove-Removed size 0 part e.kind c (omega (arith, counted)) in
      (
        ap (λ (o : Option Entry). (release size part e.kind c o).entries) looked ∙ dropped,
        omega (arith, left),
        budget,
      )

  forget_each-others :
      (kept es : List Entry) (c : SectionCache)
      → All (IsOther part) kept
      → c.entries ≡ kept ++ es
      → IsBalanced size c
      → Forgotten c (kept ++ others part es) (forget_each size part es c)
  unfolding forget_each others
  forget_each-others kept [] c other whole counted = (whole, counted, refl)
  forget_each-others kept (e ∷ es) c other whole counted = elim (Bool-cases (e.part == part)) [
    | inl own ↦
        let (left, balanced, budget) = remove-append kept es e c other own whole counted in
        let (last, count, kept_budget) =
          forget_each-others kept es (remove size part e.kind c) other left balanced in
        subst after (sym own) (last, count, kept_budget ∙ budget)
    | inr not_own ↦
        let (last, count, kept_budget) =
          forget_each-others (kept ++ e ∷ []) es c
            (All-append (IsOther part) kept (e ∷ []) other (not_own, tt))
            (whole ∙ sym (append_assoc kept (e ∷ []) es)) counted in
        subst after (sym not_own)
          (last ∙ append_assoc kept (e ∷ []) (others part es), count, kept_budget)
  ]
    where
      after : Bool → Type 0
      after own =
          Forgotten c (kept ++ (if own then others part es else e ∷ others part es))
            (forget_each size part es (if own then remove size part e.kind c else c))

-- `forget` on a cache that counts the bytes of its entries leaves exactly the entries of the other
-- parts, in their order, counts their bytes, and keeps the budget.
pub forget-others :
    (size part : ℕ) (c : SectionCache)
    → IsBalanced size c
    → ((forget size part c).entries ≡ others part c.entries)
      × IsBalanced size (forget size part c)
      × ((forget size part c).budget ≡ c.budget)
unfolding forget
forget-others size part c counted = forget_each-others size part [] c.entries c tt refl counted
