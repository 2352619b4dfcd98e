-- ===== src/IdCol/Validate.antt =====
-- `validate` over the columns of `build`.
use turndb.Shared.{
  ℕ, ◌+◌, ◌-◌, ◌/◌, ◌%◌, ◌<◌, ◌≡◌, refl, ap, ◌∙◌, ◌⊎◌, inl, inr, true, false, not, ◌==◌, ◌&&◌, ◌||◌,
  ltb, List, [], ◌∷◌, ◌++◌, length, length-append, length-drop, drop, take-append_eq,
  drop-append_eq, get_elem?, Option, none, some, All, Bytes, bytes_lt, is_utf8, ok, arith,
  Bool-cases,
}
use turndb.Types.{is_empty_name}
use turndb.Varint.{varint, get-put_varint}
use turndb.IdCol.Defs.{
  restart, shared_at, entry, build, IdCol, check_restart, not_above, validate_from, validate_column,
}
use turndb.IdCol.Stream.{Short, AboveFrom, entry-append, shared_fits, entries_from, restarts_from}
use turndb.IdCol.Access.{column_of, table, table_here, table_next}
use turndb.IdCol.Search.{group_count}
use turndb.IdCol.Lookup.{restarts-group_count}
use turndb.IdCol.Build.{build-column_of}

-- An id that a column may hold: a text of at least one byte.
abbrev pub IsId : Bytes → Type 0
IsId id = (is_empty_name id ≡ false) × (is_utf8 id ≡ true)

-- What `validate` remembers of the id before the one at `i`.
abbrev Follows : ℕ → Bytes → Option Bytes → Type 0
Follows i prev previous = (previous ≡ none × i ≡ 0) ⊎ (previous ≡ some prev × 0 < i)

not_above-Follows :
    (i : ℕ) (prev cur : Bytes) (previous : Option Bytes)
    → Follows i prev previous
    → (0 < i → bytes_lt prev cur ≡ true)
    → not_above previous cur ≡ false
not_above-Follows i prev cur previous (inl (e, z)) h = rw e refl
not_above-Follows i prev cur previous (inr (e, p)) h = rw (e, h p) refl

check_restart-table :
    (col : IdCol) (i at : ℕ) (rest : Bytes) (offsets : List ℕ)
    → at + length rest ≡ length col.stream
    → ((k : ℕ) → get_elem? col.restarts (k + (i + 15) / restart) ≡ get_elem? (table i at offsets) k)
    → check_restart col i rest ≡ ok tt
unfolding check_restart
check_restart-table col i at rest offsets whole listed = elim (Bool-cases (i % restart == 0)) [
  | inl t ↦
      let there : get_elem? col.restarts (i / restart) ≡ some at =
        ap (λ (k : ℕ). get_elem? col.restarts k) (ground arith)
        ∙ listed 0
        ∙ table_here i at 0 offsets (ground arith) refl in
      let same : (at == length col.stream - length rest) ≡ true = ground arith in
      rw (t, there, same) refl
  | inr f ↦ rw f refl
]

shared_at-restart :
    (i : ℕ) (prev cur : Bytes) → (i % restart == 0 && not (shared_at i prev cur == 0)) ≡ false
unfolding shared_at
shared_at-restart i prev cur = ground arith

validate_from-entries :
    (col : IdCol) (i at : ℕ) (prev : Bytes) (previous : Option Bytes) (ids : List Bytes)
    → Follows i prev previous
    → AboveFrom i prev ids
    → All Short ids
    → All IsId ids
    → at + length (entries_from i prev ids) ≡ length col.stream
    → ((k : ℕ)
        → get_elem? col.restarts (k + (i + 15) / restart)
          ≡ get_elem? (restarts_from i at prev ids) k)
    → validate_from col (length ids) i prev previous (entries_from i prev ids) ≡ ok []
unfolding validate_from entries_from restarts_from AboveFrom table
validate_from-entries col i at prev previous [] follows above short names whole listed = refl
validate_from-entries col i at prev previous (cur ∷ ids) follows above short names whole listed =
    let shared = shared_at i prev cur in
    let suffix = drop shared cur in
    let later = entries_from (i + 1) cur ids in
    let (low, high, joined) = shared_fits i prev prev cur (inr refl) in
    let checked =
      check_restart-table col i at (entry i prev cur ++ later)
        (restarts_from (i + 1) (at + length (entry i prev cur)) cur ids) whole listed in
    let fits : (ltb (length prev) shared || ltb (length (suffix ++ later)) (length cur - shared))
        ≡ false =
      ground (arith, length-append {0} suffix later, length-drop shared cur) in
    rw
      (
        checked,
        entry-append i prev cur later,
        get-put_varint shared (varint (length cur - shared) ++ (suffix ++ later))
            (omega (arith, short.0)),
        get-put_varint (length cur - shared) (suffix ++ later) (omega (arith, short.0)),
        shared_at-restart i prev cur,
        fits,
        take-append_eq suffix later (length cur - shared) (length-drop shared cur),
        drop-append_eq suffix later (length cur - shared) (length-drop shared cur),
        joined,
        names.0.0,
        names.0.1,
        not_above-Follows i prev cur previous follows above.0,
      )
      (validate_from-entries col (i + 1) (at + length (entry i prev cur)) cur (some cur) ids
        (inr (refl, omega arith)) above.1 short.1 names.1
        (omega (arith, whole, length-append {0} (entry i prev cur) later))
        (λ k.
          ap (λ (j : ℕ). get_elem? col.restarts j)
            {y = (k + ((i + 16) / restart - (i + 15) / restart)) + (i + 15) / restart} (omega arith)
          ∙ listed (k + ((i + 16) / restart - (i + 15) / restart))
          ∙ table_next i at _ k (restarts_from (i + 1) (at + length (entry i prev cur)) cur ids)
              (λ t. omega arith) (λ t. omega arith)))

-- When `build` accepts the ids, and every id is a text of at least one byte, `validate` accepts
-- the column.
pub validate_column-build :
    (ids : List Bytes) {s : Bytes} {r : List ℕ}
    → All IsId ids
    → build ids ≡ ok (s, r)
    → validate_column (record { stream = s; restarts = r; len = length ids }) ≡ ok tt
unfolding validate_column
validate_column-build ids names h =
    let (column, short, above) = build-column_of ids h in
    let count : (length (restarts_from 0 0 [] ids) == group_count ids) ≡ true =
      ground (arith, restarts-group_count ids) in
    ap validate_column column
    ∙ rw
        (
          count,
          validate_from-entries (column_of ids) 0 0 [] none ids (inl (refl, refl)) above short names
              (omega arith)
              (λ k. ap (λ (j : ℕ). get_elem? (restarts_from 0 0 [] ids) j) (omega arith)),
        )
        refl
