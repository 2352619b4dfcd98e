-- ===== src/IdCol/Cursor.antt =====
-- The streaming cursor over an id column, which holds one id at a time.
use turndb.Shared.{
  ℕ, zero, suc, ◌+◌, ◌≡◌, refl, ap, ◌∙◌, inr, true, false, leb, if◌then◌else◌, List, [], ◌∷◌,
  length, Option, none, some, All, Bytes, Result, ok, err, ◌>>=◌, out_of_fuel, arith,
}
use turndb.IdCol.Defs.{IdCol, next_entry, build}
use turndb.IdCol.Stream.{Short, entries_from, next_entry-entry}
use turndb.IdCol.Build.{build-column_of}

-- `remaining` is the stream from the cursor's `at` on.
pub record IdCursor : Type 0 where
  remaining : Bytes
  len : ℕ
  done : ℕ
  cur : Bytes

pub cursor : IdCol → IdCursor
cursor col = record { remaining = col.stream; len = col.len; done = 0; cur = [] }

unfoldable pub next_id : IdCursor → Result (Option Bytes × IdCursor)
next_id c = if leb c.len c.done then ok (none, c) else (do
  (cur, remaining) ← next_entry c.cur c.remaining
  ok (some cur, record { remaining = remaining; len = c.len; done = c.done + 1; cur = cur }))

-- `next_id` until it gives no id, `fuel` calls at most.
unfoldable pub drain : ℕ → IdCursor → Result (List Bytes)
drain zero c = err out_of_fuel
drain (suc fuel) c = do
  (id, c) ← next_id c
  elim id [ none ↦ ok [] | some id ↦ (drain fuel c >>= λ ids. ok (id ∷ ids)) ]

drain-entries :
    (i : ℕ) (prev : Bytes) (ids : List Bytes) (len : ℕ)
    → All Short ids
    → i + length ids ≡ len
    → drain
        (suc (length ids))
        (record { remaining = entries_from i prev ids; len = len; done = i; cur = prev })
      ≡ ok ids
unfolding drain next_id entries_from
drain-entries i prev [] len short e = let stop : leb len i ≡ true = ground arith in rw stop refl
drain-entries i prev (cur ∷ ids) len short e =
    let go : leb len i ≡ false = ground arith in
    rw
      (
        go,
        next_entry-entry i prev prev cur (entries_from (i + 1) cur ids) (inr refl) short.0,
        drain-entries (i + 1) cur ids len short.1 (omega arith),
      )
      refl

-- When `build` accepts the ids, calling `next_id` until it gives no id gives the ids in their
-- order; it ends with the call after the last id, and no call fails.
pub drain-build :
    (ids : List Bytes) {s : Bytes} {r : List ℕ}
    → build ids ≡ ok (s, r)
    → drain (suc (length ids)) (cursor (record { stream = s; restarts = r; len = length ids }))
      ≡ ok ids
unfolding cursor
drain-build ids h =
    let (column, short, above) = build-column_of ids h in
    ap (λ (col : IdCol). drain (suc (length ids)) (cursor col)) column
    ∙ drain-entries 0 [] ids (length ids) short (omega arith)
