-- ===== src/IdCol/Access.antt =====
-- `get` and the table of restart points.
use turndb.Shared.{
  ℕ, zero, suc, ◌+◌, ◌-◌, ◌*◌, ◌/◌, ◌%◌, ◌≤◌, ◌<◌, ◌≡◌, refl, ap, ◌∙◌, inl, inr, false, ◌==◌, leb,
  if◌then◌else◌, List, [], ◌∷◌, length, drop, drop-append_more, get_elem?, get_elem?-drop, some,
  All, All-drop, Bytes, ok, arith, Bool-cases,
}
use turndb.IdCol.Defs.{restart, entry, get, IdCol}
use turndb.IdCol.Stream.{Short, entries_from, restarts_from, walk-entries}

unfoldable pub table : ℕ → ℕ → List ℕ → List ℕ
table i at rest = if i % restart == 0 then at ∷ rest else rest

pub table_here :
    (i at k : ℕ) (rest : List ℕ) → i % restart ≡ 0 → k ≡ 0 → get_elem? (table i at rest) k ≡ some at
unfolding table
table_here i at k rest e f = rw (e, f) refl

pub table_next :
    (i at k l : ℕ) (rest : List ℕ)
    → (i % restart ≡ 0 → k ≡ suc l)
    → (¬ (i % restart ≡ 0) → k ≡ l)
    → get_elem? (table i at rest) k ≡ get_elem? rest l
unfolding table
table_next i at k l rest p q = elim (Bool-cases (i % restart == 0)) [
  | inl t ↦ rw (t, p (ground arith)) refl
  | inr t ↦ rw (t, q (λ e. ground arith)) refl
]

RestartPoint : ℕ → ℕ → ℕ → Bytes → List Bytes → Type 0
RestartPoint j i at prev ids =
    (off : ℕ) × (before : Bytes) × (get_elem? (restarts_from i at prev ids)
        ((i + j) / restart - (i + 15) / restart)
      ≡ some (at + off))
    × (drop off (entries_from i prev ids) ≡ entries_from (i + j) before (drop j ids))

-- The restart point of the id `j` places on is in the table, and the entries stand there.
restart_point :
    (j i at : ℕ) (prev : Bytes) (ids : List Bytes) {id : Bytes}
    → get_elem? ids j ≡ some id
    → (i + j) % restart ≡ 0
    → RestartPoint j i at prev ids
unfolding RestartPoint restarts_from entries_from table
restart_point j i at prev [] h e = cc
restart_point zero i at prev (cur ∷ ids) h e = (
  0,
  prev,
  table_here i at _ later (omega arith) (omega arith)
      ∙ ap (λ (k : ℕ). some k) {y = at + 0} (omega arith),
  ap (λ (k : ℕ). entries_from k prev (cur ∷ ids)) {y = i + 0} (omega arith),
)
  where
    later : List ℕ
    later = restarts_from (i + 1) (at + length (entry i prev cur)) cur ids
restart_point (suc j) i at prev (cur ∷ ids) h e =
    let next = length (entry i prev cur) in
    let (off, before, listed, stands) =
      restart_point j (i + 1) (at + next) cur ids h
        (ap (λ (k : ℕ). k % restart) {y = i + suc j} (omega arith) ∙ e) in
    (
      next + off,
      before,
      table_next i at _ ((i + 1 + j) / restart - (i + 1 + 15) / restart)
            (restarts_from (i + 1) (at + next) cur ids) (λ t. omega arith) (λ t. omega arith)
          ∙ listed
          ∙ ap (λ (k : ℕ). some k) {y = at + (next + off)} (omega arith),
      drop-append_more (entry i prev cur) (entries_from (i + 1) cur ids) off
          ∙ stands
          ∙ ap (λ (k : ℕ). entries_from k before (drop j ids)) {y = i + suc j} (omega arith),
    )

-- The column that `build` makes of ids.
abbrev pub column_of : List Bytes → IdCol
column_of ids = record {
  stream = entries_from 0 [] ids;
  restarts = restarts_from 0 0 [] ids;
  len = length ids;
}

pub get_elem?-lt :
    (ids : List Bytes) (i : ℕ) {id : Bytes} → get_elem? ids i ≡ some id → i < length ids
get_elem?-lt [] i h = cc
get_elem?-lt (x ∷ ids) zero h = omega arith
get_elem?-lt (x ∷ ids) (suc i) h = omega (arith, get_elem?-lt ids i h)

-- The id at the restart point of the group exists, as the group is not empty.
get_elem?-below :
    (ids : List Bytes) (i j : ℕ) {id : Bytes}
    → get_elem? ids i ≡ some id
    → j ≤ i
    → (other : Bytes) × (get_elem? ids j ≡ some other)
get_elem?-below [] i j h le = cc
get_elem?-below (x ∷ ids) i zero h le = (x, refl)
get_elem?-below (x ∷ ids) zero (suc j) h le = elim le [ ]
get_elem?-below (x ∷ ids) (suc i) (suc j) h le = get_elem?-below ids i j h (omega arith)

pub get-column_of :
    (ids : List Bytes) (i : ℕ) {id : Bytes}
    → All Short ids
    → get_elem? ids i ≡ some id
    → get (column_of ids) i ≡ ok id
unfolding get RestartPoint
get-column_of ids i short h =
    let first = i / restart * restart in
    let (other, there) = get_elem?-below ids i first h (omega arith) in
    let (off, before, listed, stands) = restart_point first 0 0 [] ids there (omega arith) in
    let inside : get_elem? (drop first ids) (i % restart) ≡ some _ =
      get_elem?-drop first (i % restart) ids
      ∙ ap (λ (k : ℕ). get_elem? ids k) {y = i} (omega arith)
      ∙ h in
    let found : get_elem? (restarts_from 0 0 [] ids) (i / restart) ≡ some off =
      ap (λ (k : ℕ). get_elem? (restarts_from 0 0 [] ids) k)
        {y = (0 + first) / restart - (0 + 15) / restart} (omega arith)
      ∙ listed
      ∙ ap (λ (k : ℕ). some k) {y = off} (omega arith) in
    let below : leb (length ids) i ≡ false = ground (arith, get_elem?-lt ids i h) in
    rw (below, found, stands)
      (walk-entries (i % restart) (0 + first) before [] (drop first ids) (inl (omega arith))
        (All-drop Short first ids short) inside)
