-- ===== src/Types/Validation.antt =====
-- What `validate_contents` accepts: sound contents under distinct names.
use turndb.Shared.{
  ◌↔◌, ◌≡◌, refl, false, List, [], ◌∷◌, ok, Bytes, bytes_eq, arith, All, Bool-cases, inl, inr,
  bytes_eq_refl, bytes_eq→eq,
}
use turndb.Types.Defs.{
  Content, is_empty_name, any_zero_piece, contains_name, validate_contents_from, validate_contents,
}

-- The name is not empty, and every piece has a byte at least.
pub record IsSound (c : Content) : Type 0 where
  pub named : is_empty_name c.name ≡ false
  pub pieces : any_zero_piece c.ops ≡ false

-- No content of the list has the name.
abbrev pub Absent : Bytes → List Content → Type 0
Absent name cs = All (λ c. bytes_eq name c.name ≡ false) cs

abbrev pub Distinct : List Content → Type 0
Distinct [] = Unit
Distinct (c ∷ cs) = Absent c.name cs × Distinct cs

pub bytes_eq_sym : (a b : Bytes) → bytes_eq a b ≡ false → bytes_eq b a ≡ false
bytes_eq_sym a b h = elim (Bool-cases (bytes_eq b a)) [
  | inl e ↦ absurd (cc (bytes_eq_refl a, bytes_eq→eq b a e))
  | inr e ↦ e
]

-- None of `cs` has a name among `names`.
abbrev Fresh : List Bytes → List Content → Type 0
Fresh names cs = All (λ c. contains_name names c.name ≡ false) cs

Fresh-cons :
    (name : Bytes) (names : List Bytes) (cs : List Content)
    → Absent name cs
    → Fresh names cs
    → Fresh (name ∷ names) cs
unfolding contains_name
Fresh-cons name names [] a f = tt
Fresh-cons name names (c ∷ cs) a f = (ground arith, Fresh-cons name names cs a.1 f.1)

Fresh-split :
    (name : Bytes) (names : List Bytes) (cs : List Content)
    → Fresh (name ∷ names) cs
    → Absent name cs × Fresh names cs
unfolding contains_name
Fresh-split name names [] f = (tt, tt)
Fresh-split name names (c ∷ cs) f =
    let (a, g) = Fresh-split name names cs f.1 in
    ((ground (arith, f.0), a), (ground (arith, f.0), g))

accepted_step :
    (names : List Bytes) (c : Content) (cs : List Content)
    → validate_contents_from names (c ∷ cs) ≡ ok tt
    → IsSound c
      × (contains_name names c.name ≡ false)
      × (validate_contents_from (c.name ∷ names) cs ≡ ok tt)
unfolding validate_contents_from
accepted_step names c cs h = ground arith

accepted_from :
    (names : List Bytes) (cs : List Content)
    → validate_contents_from names cs ≡ ok tt
    → Fresh names cs × Distinct cs × All IsSound cs
accepted_from names [] h = (tt, tt, tt)
accepted_from names (c ∷ cs) h =
    let (sound, fresh, rest) = accepted_step names c cs h in
    let (f, d, s) = accepted_from (c.name ∷ names) cs rest in
    let (a, g) = Fresh-split c.name names cs f in ((fresh, g), (a, d), (sound, s))

validated_from :
    (names : List Bytes) (cs : List Content)
    → Fresh names cs
    → Distinct cs
    → All IsSound cs
    → validate_contents_from names cs ≡ ok tt
unfolding validate_contents_from
validated_from names [] f d s = refl
validated_from names (c ∷ cs) f d s = ground (
  arith,
  s.0.named,
  s.0.pieces,
  f.0,
  validated_from (c.name ∷ names) cs (Fresh-cons c.name names cs d.0 f.1) d.1 s.1,
)

all-Fresh : (cs : List Content) → Fresh [] cs
unfolding contains_name
all-Fresh [] = tt
all-Fresh (c ∷ cs) = (refl, all-Fresh cs)

-- `validate_contents` accepts exactly the lists of sound contents with distinct names.
pub validate_contents_iff :
    (cs : List Content) → (validate_contents cs ≡ ok tt) ↔ (Distinct cs × All IsSound cs)
unfolding validate_contents
validate_contents_iff cs = (
  λ h. let (f, d, s) = accepted_from [] cs h in (d, s),
  λ p. validated_from [] cs (all-Fresh cs) p.0 p.1,
)
