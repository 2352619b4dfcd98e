-- ===== src/Cache/Entries.antt =====
-- The entries under a key, and their bytes.
use turndb.Shared.{
  ℕ, suc, ◌+◌, ◌≡◌, refl, sym, ap, ◌∙◌, inl, inr, Bool, true, false, leb, if◌then◌else◌, List, [],
  ◌∷◌, length, Option, none, some, bytes_eq_refl, arith, Bool-cases, ==_refl,
}
use turndb.Cache.Defs.{Kind, kind_eq, Entry, is_at, lookup, without, colder, coldest, weight}

kind_eq_refl : (k : Kind) → kind_eq k k ≡ true
unfolding kind_eq
kind_eq_refl (Kind.section a) = bytes_eq_refl a
kind_eq_refl (Kind.nums a) = bytes_eq_refl a
kind_eq_refl (Kind.rids a) = ==_refl a
kind_eq_refl (Kind.content_rids a) = ==_refl a
kind_eq_refl (Kind.dict a) = ==_refl a
kind_eq_refl (Kind.binary_dict a) = ==_refl a
kind_eq_refl Kind.content_meta = refl
kind_eq_refl Kind.ids = refl

pub is_at_refl : (e : Entry) → is_at e.part e.kind e ≡ true
is_at_refl e = rw (==_refl e.part, kind_eq_refl e.kind) refl

pub lookup_first : (e : Entry) (es : List Entry) → lookup e.part e.kind (e ∷ es) ≡ some e
unfolding lookup
lookup_first e es = ap (λ (b : Bool). if b then some e else lookup e.part e.kind es) (is_at_refl e)

pub entry-inj : (a b : Entry) → some a ≡ some b → a ≡ b
entry-inj a b h = cc

-- The coldest entry is found under its key.
pub lookup-coldest :
    (es : List Entry) (v : Entry)
    → coldest es ≡ some v
    → (e : Entry) × (lookup v.part v.kind es ≡ some e)
unfolding lookup coldest
lookup-coldest [] v h = cc
lookup-coldest (x ∷ es) v h = elim (Bool-cases (is_at v.part v.kind x)) [
  | inl y ↦ (x, rw y refl)
  | inr n ↦
      let (e, found) = behind (coldest es) refl (entry-inj _ _ h) (lookup-coldest es v) n in
      (e, rw n found)
]
  where
    itself :
        x ≡ v → is_at v.part v.kind x ≡ false → (e : Entry) × (lookup v.part v.kind es ≡ some e)
    itself same n =
        let self = ap (λ (y : Entry). is_at v.part v.kind y) same ∙ is_at_refl v in
        let clash = sym n ∙ self in cc

    behind :
        (o : Option Entry)
        → coldest es ≡ o
        → colder x o ≡ v
        → (coldest es ≡ some v → (e : Entry) × (lookup v.part v.kind es ≡ some e))
        → is_at v.part v.kind x ≡ false
        → (e : Entry) × (lookup v.part v.kind es ≡ some e)
    behind none rest same again n = itself same n
    behind (some other) rest same again n = elim (Bool-cases (leb x.tick other.tick)) [
      | inl le ↦ itself (sym (ap (λ (b : Bool). if b then x else other) le) ∙ same) n
      | inr gt ↦
          let last = sym (ap (λ (b : Bool). if b then x else other) gt) ∙ same in
          again (rest ∙ ap (λ (y : Entry). some y) last)
    ]

pub coldest-none : (es : List Entry) → coldest es ≡ none → es ≡ []
unfolding coldest
coldest-none [] h = refl
coldest-none (x ∷ es) h = cc

module _ (size : ℕ) where
  unfoldable pub weigh : List Entry → ℕ
  weigh [] = 0
  weigh (e ∷ es) = weight size e.held + weigh es

  pub weigh-without :
      (part : ℕ) (kind : Kind) (es : List Entry) (gone : Entry)
      → lookup part kind es ≡ some gone
      → (weigh (without part kind es) + weight size gone.held ≡ weigh es)
        × (suc (length (without part kind es)) ≡ length es)
  unfolding lookup without weigh
  weigh-without part kind [] gone h = cc
  weigh-without part kind (x ∷ es) gone h =
      by_test (is_at part kind x) (λ e. weigh-without part kind es gone e) h
    where
      by_test :
          (b : Bool)
          → (lookup part kind es ≡ some gone
              → (weigh (without part kind es) + weight size gone.held ≡ weigh es)
                × (suc (length (without part kind es)) ≡ length es))
          → (if b then some x else lookup part kind es) ≡ some gone
          → (weigh (if b then es else x ∷ without part kind es) + weight size gone.held
              ≡ weigh (x ∷ es))
            × (suc (length (if b then es else x ∷ without part kind es)) ≡ suc (length es))
      by_test true again h =
          let same = ap (λ (y : Entry). weight size y.held) (entry-inj x gone h) in
          (omega (arith, same), refl)
      by_test false again h = let (sum, count) = again h in (omega (arith, sum), ap suc count)
