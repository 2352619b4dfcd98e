-- ===== src/Types/Sorting.antt =====
-- `Record::new` puts contents into canonical order and changes nothing else.
use turndb.Shared.{
  length, suc, ◌≡◌, refl, ap, ◌∙◌, true, false, List, [], ◌∷◌, Bytes, bytes_eq, bytes_lt,
  bytes_eq_refl, bytes_eq→eq, bytes_lt_trans, bytes_lt_irrefl, bytes_lt_total, arith, All,
  Bool-cases, inl, inr, if◌then◌else◌, some, ok, Option,
}
use turndb.Types.Defs.{
  Value, Content, Record, insert_content, sort_contents, find_content, content, new_record,
  is_empty_name, validate_contents,
}
use turndb.Types.Validation.{Absent, Distinct, bytes_eq_sym, IsSound, validate_contents_iff}

-- Every content of the list comes behind the name.
abbrev pub Above : Bytes → List Content → Type 0
Above name cs = All (λ c. bytes_lt name c.name ≡ true) cs

abbrev pub IsSorted : List Content → Type 0
IsSorted [] = Unit
IsSorted (c ∷ cs) = Above c.name cs × IsSorted cs

module _ (P : Content → Type 0) where
  pub All-insert : (c : Content) (cs : List Content) → P c → All P cs → All P (insert_content c cs)
  unfolding insert_content
  All-insert c [] p h = (p, tt)
  All-insert c (d ∷ ds) p h = elim (Bool-cases (bytes_lt d.name c.name)) [
    | inl e ↦ rw e (h.0, All-insert c ds p h.1)
    | inr e ↦ rw e (p, h)
  ]

  pub All-sort : (cs : List Content) → All P cs → All P (sort_contents cs)
  unfolding sort_contents
  All-sort [] h = tt
  All-sort (c ∷ cs) h = All-insert c (sort_contents cs) h.0 (All-sort cs h.1)

Distinct-insert :
    (c : Content) (cs : List Content)
    → Absent c.name cs
    → Distinct cs
    → Distinct (insert_content c cs)
unfolding insert_content
Distinct-insert c [] a d = (tt, tt)
Distinct-insert c (e ∷ es) a d = elim (Bool-cases (bytes_lt e.name c.name)) [
  | inl t ↦ rw t (
    All-insert (λ x. bytes_eq e.name x.name ≡ false) c es (bytes_eq_sym c.name e.name a.0) d.0,
    Distinct-insert c es a.1 d.1,
  )
  | inr t ↦ rw t (a, d)
]

pub Distinct-sort : (cs : List Content) → Distinct cs → Distinct (sort_contents cs)
unfolding sort_contents
Distinct-sort [] d = tt
Distinct-sort (c ∷ cs) d =
    Distinct-insert c (sort_contents cs) (All-sort (λ x. bytes_eq c.name x.name ≡ false) cs d.0)
      (Distinct-sort cs d.1)

Above-trans : (a b : Bytes) (cs : List Content) → bytes_lt a b ≡ true → Above b cs → Above a cs
Above-trans a b [] h k = tt
Above-trans a b (c ∷ cs) h k = (bytes_lt_trans a b c.name h k.0, Above-trans a b cs h k.1)

-- Of two different names one comes first.
not_before : (a b : Bytes) → bytes_eq a b ≡ false → bytes_lt b a ≡ false → bytes_lt a b ≡ true
not_before a b n h = elim (Bool-cases (bytes_lt a b)) [
  | inl e ↦ e
  | inr e ↦ absurd (cc (n, bytes_eq_refl a, bytes_lt_total a b e h))
]

insert-IsSorted :
    (c : Content) (cs : List Content)
    → Absent c.name cs
    → IsSorted cs
    → IsSorted (insert_content c cs)
unfolding insert_content
insert-IsSorted c [] a s = (tt, tt)
insert-IsSorted c (d ∷ ds) a s = elim (Bool-cases (bytes_lt d.name c.name)) [
  | inl t ↦
      rw t
        (All-insert (λ x. bytes_lt d.name x.name ≡ true) c ds t s.0, insert-IsSorted c ds a.1 s.1)
  | inr t ↦
      let first = not_before c.name d.name a.0 t in
      rw t ((first, Above-trans c.name d.name ds first s.0), s)
]

pub sort-IsSorted : (cs : List Content) → Distinct cs → IsSorted (sort_contents cs)
unfolding sort_contents
sort-IsSorted [] d = tt
sort-IsSorted (c ∷ cs) d =
    insert-IsSorted c (sort_contents cs) (All-sort (λ x. bytes_eq c.name x.name ≡ false) cs d.0)
      (sort-IsSorted cs d.1)

bytes_lt_asymm : (a b : Bytes) → bytes_lt a b ≡ true → bytes_lt b a ≡ false
bytes_lt_asymm a b h = elim (Bool-cases (bytes_lt b a)) [
  | inl e ↦ absurd (cc (bytes_lt_trans a b a h e, bytes_lt_irrefl a))
  | inr e ↦ e
]

insert_first : (c : Content) (cs : List Content) → Above c.name cs → insert_content c cs ≡ c ∷ cs
unfolding insert_content
insert_first c [] a = refl
insert_first c (d ∷ ds) a = rw (bytes_lt_asymm c.name d.name a.0)

length-insert : (c : Content) (cs : List Content) → length (insert_content c cs) ≡ suc (length cs)
unfolding insert_content
length-insert c [] = refl
length-insert c (e ∷ es) = ground (arith, length-insert c es)

pub length-sort : (cs : List Content) → length (sort_contents cs) ≡ length cs
unfolding sort_contents
length-sort [] = refl
length-sort (c ∷ cs) = length-insert c (sort_contents cs) ∙ ap suc (length-sort cs)

-- Sorting what is sorted changes nothing.
pub sort-eq_of_IsSorted : (cs : List Content) → IsSorted cs → sort_contents cs ≡ cs
unfolding sort_contents
sort-eq_of_IsSorted [] s = refl
sort-eq_of_IsSorted (c ∷ cs) s = rw (sort-eq_of_IsSorted cs s.1) (insert_first c cs s.0)

find-insert :
    (c : Content) (cs : List Content) (name : Bytes)
    → Absent c.name cs
    → find_content (insert_content c cs) name
      ≡ (if bytes_eq c.name name then some c else find_content cs name)
unfolding insert_content find_content
find-insert c [] name a = refl
find-insert c (d ∷ ds) name a = ground (
  arith,
  find-insert c ds name a.1,
  a.0,
  bytes_eq→eq c.name name,
  bytes_eq→eq d.name name,
  bytes_eq_refl name,
)

find-sort :
    (cs : List Content) (name : Bytes)
    → Distinct cs
    → find_content (sort_contents cs) name ≡ find_content cs name
unfolding sort_contents find_content
find-sort [] name d = refl
find-sort (c ∷ cs) name d =
    find-insert c (sort_contents cs) name (All-sort (λ x. bytes_eq c.name x.name ≡ false) cs d.0)
    ∙ ap (λ (o : Option Content). if bytes_eq c.name name then some c else o)
        (find-sort cs name d.1)

-- Validation does not depend on the order of the contents.
pub validate_contents-sort :
    (cs : List Content)
    → validate_contents cs ≡ ok tt
    → validate_contents (sort_contents cs) ≡ ok tt
validate_contents-sort cs h =
    let (d, s) = (validate_contents_iff cs).0 h in
    (validate_contents_iff (sort_contents cs)).1 (Distinct-sort cs d, All-sort IsSound cs s)

-- `Record::new` fails on an empty id and on invalid contents, and on nothing else.
pub new_record-ok :
    (id : Bytes) (contents : List Content) (attrs : List (Bytes × Value))
    → is_empty_name id ≡ false
    → validate_contents contents ≡ ok tt
    → new_record id contents attrs
      ≡ ok (record { id = id; contents = sort_contents contents; attrs = attrs })
unfolding new_record
new_record-ok id contents attrs named valid = rw (named, valid)

pub new_record_inv :
    (id : Bytes) (contents : List Content) (attrs : List (Bytes × Value)) (r : Record)
    → new_record id contents attrs ≡ ok r
    → (is_empty_name id ≡ false)
      × (validate_contents contents ≡ ok tt)
      × (r ≡ record { id = id; contents = sort_contents contents; attrs = attrs })
unfolding new_record
new_record_inv id contents attrs r h = ground arith

-- A record that `Record::new` builds has the id and attributes it was given, contents in strict
-- order of their names, and under every name the content that was given under it.
pub new_record_lem :
    (id : Bytes) (contents : List Content) (attrs : List (Bytes × Value)) (r : Record)
    → new_record id contents attrs ≡ ok r
    → (r.id ≡ id)
      × (r.attrs ≡ attrs)
      × IsSorted r.contents
      × ((name : Bytes) → content r name ≡ find_content contents name)
new_record_lem id contents attrs r h =
    let (named, valid, same) = new_record_inv id contents attrs r h in
    let d = ((validate_contents_iff contents).0 valid).0 in
    rw same
      (refl, refl, sort-IsSorted contents d, λ name. unfold content in find-sort contents name d)
