-- ===== src/IdCol/Defs.antt =====
-- The id column. A stream with a cursor `at` is the stream from the cursor on.
use turndb.Shared.{
  ℕ, zero, suc, ◌+◌, ◌-◌, ◌*◌, ◌/◌, ◌%◌, ◌^◌, min, Bool, true, false, not, ◌==◌, ◌&&◌, ◌||◌, ltb,
  leb, if◌then◌else◌, List, [], ◌∷◌, ◌++◌, length, take, drop, get_elem?, Option, none, some, Bytes,
  bytes_eq, bytes_lt, is_utf8, Error, Result, ok, err, ◌>>=◌, ◌>>◌, bail_if, id_order,
  id_stream_overflow, restart_count, restart_offset, restart_prefix, corrupt_id_entry,
  id_order_or_duplicate, id_index, missing_restart, record_id_empty, trailing_bytes, out_of_fuel,
  not_utf8,
}
use turndb.Types.{is_empty_name}
use turndb.Varint.{varint, get_varint}

-- `RESTART`
abbrev pub restart : ℕ
restart = 16

unfoldable pub shared_prefix : Bytes → Bytes → ℕ
shared_prefix [] b = 0
shared_prefix (x ∷ a) [] = 0
shared_prefix (x ∷ a) (y ∷ b) = let rest = shared_prefix a b in if x == y then suc rest else 0

unfoldable pub checked_stream_end : ℕ → ℕ → Result ℕ
checked_stream_end current encoded_entry_len = do
  bail_if (ltb (2 ^ 64 - 1) (current + encoded_entry_len)) id_stream_overflow
  bail_if (ltb (2 ^ 32 - 1) (current + encoded_entry_len)) id_stream_overflow
  ok (current + encoded_entry_len)

-- What is shared with the id before: nothing at a restart point.
unfoldable pub shared_at : ℕ → Bytes → Bytes → ℕ
shared_at i prev cur = if i % restart == 0 then 0 else shared_prefix prev cur

unfoldable pub entry : ℕ → Bytes → Bytes → Bytes
entry i prev cur =
    let shared = shared_at i prev cur in
    varint shared ++ (varint (length cur - shared) ++ drop shared cur)

-- `build` from the id at index `i` on.
unfoldable pub build_from : ℕ → Bytes → Bytes → List ℕ → List Bytes → Result (Bytes × List ℕ)
build_from i prev stream restarts [] = ok (stream, restarts)
build_from i prev stream restarts (cur ∷ ids) = do
  bail_if (ltb 0 i && not (bytes_lt prev cur)) id_order
  _ ← checked_stream_end (length stream) (length (entry i prev cur))
  build_from (i + 1) cur (stream ++ entry i prev cur)
      (if i % restart == 0 then restarts ++ length stream ∷ [] else restarts) ids

unfoldable pub build : List Bytes → Result (Bytes × List ℕ)
build ids = build_from 0 [] [] [] ids

pub record IdCol : Type 0 where
  pub stream : Bytes
  pub restarts : List ℕ
  pub len : ℕ

-- One entry, read behind the id `cur`.
unfoldable pub next_entry : Bytes → Bytes → Result (Bytes × Bytes)
next_entry cur rest = do
  (shared, rest) ← get_varint rest
  (suffix_len, rest) ← get_varint rest
  bail_if (ltb (length cur) shared || ltb (length rest) suffix_len) corrupt_id_entry
  ok (take shared cur ++ take suffix_len rest, drop suffix_len rest)

-- `rounds` entries, of which the last one counts.
unfoldable pub walk : ℕ → Bytes → Bytes → Result Bytes
walk zero cur rest = ok cur
walk (suc rounds) cur rest = do (cur, rest) ← next_entry cur rest; walk rounds cur rest

abbrev pub some_or {ℓ} : {A : Type ℓ} → Error → Option A → Result A
some_or e none = err e
some_or e (some a) = ok a

unfoldable pub get : IdCol → ℕ → Result Bytes
get col i = do
  bail_if (leb col.len i) id_index
  at ← some_or missing_restart (get_elem? col.restarts (i / restart))
  walk (suc (i % restart)) [] (drop at col.stream)

unfoldable pub iter_from : ℕ → Bytes → Bytes → Result (List Bytes × Bytes)
iter_from zero cur rest = ok ([], rest)
iter_from (suc n) cur rest = do
  (cur, rest) ← next_entry cur rest
  (ids, rest) ← iter_from n cur rest
  ok (cur ∷ ids, rest)

unfoldable pub iter : IdCol → Result (List Bytes)
iter col = do (ids, rest) ← iter_from col.len [] col.stream; ok ids

-- The search over restart points: the first group whose first id does not satisfy `before`.
unfoldable pub search_groups : IdCol → (Bytes → Bool) → ℕ → ℕ → ℕ → Result ℕ
search_groups col before zero lo hi = if ltb lo hi then err out_of_fuel else ok lo
search_groups col before (suc fuel) lo hi =
    let mid = (lo + hi) / 2 in
    if ltb lo hi
    then (get col (mid * restart) >>= λ first. elim (before first) [
      | true ↦ search_groups col before fuel (mid + 1) hi
      | false ↦ search_groups col before fuel lo mid
    ])
    else ok lo

-- The walk of `find` over the group, from `i` on, `rounds` ids at most.
unfoldable pub find_from : IdCol → Bytes → ℕ → ℕ → Result (Option ℕ)
find_from col needle i zero = ok none
find_from col needle i (suc rounds) = do
  id ← get col i
  if bytes_eq id needle
      then ok (some i)
      else if bytes_lt needle id
      then ok none
      else find_from col needle (i + 1) rounds

unfoldable pub find : IdCol → Bytes → Result (Option ℕ)
find col needle = if col.len == 0 then ok none else (do
  lo ←
      search_groups col (λ first. not (bytes_lt needle first)) (length col.restarts) 0
        (length col.restarts)
  let start = (lo - 1) * restart
  if lo == 0 then ok none else find_from col needle start (min (start + restart) col.len - start))

unfoldable pub lower_bound_from : IdCol → Bytes → ℕ → ℕ → Result ℕ
lower_bound_from col needle i zero = ok col.len
lower_bound_from col needle i (suc rounds) = do
  id ← get col i
  if not (bytes_lt id needle) then ok i else lower_bound_from col needle (i + 1) rounds

unfoldable pub lower_bound : IdCol → Bytes → Result ℕ
lower_bound col needle = if col.len == 0 then ok 0 else (do
  lo ←
      search_groups col (λ first. bytes_lt first needle) (length col.restarts) 0
        (length col.restarts)
  let start = (lo - 1) * restart
  lower_bound_from col needle start (col.len - start))

-- `previous.as_deref().is_some_and(|prior| prior >= current)`
abbrev pub not_above : Option Bytes → Bytes → Bool
not_above none current = false
not_above (some prior) current = not (bytes_lt prior current)

-- A restart point of `validate`: the recorded offset, and the entry without a shared prefix.
unfoldable pub check_restart : IdCol → ℕ → Bytes → Result (Unit {0})
check_restart col index rest =
    if index % restart == 0
    then (some_or missing_restart (get_elem? col.restarts (index / restart)) >>= λ recorded.
        bail_if (not (recorded == length col.stream - length rest)) restart_offset)
    else ok tt

-- The loop of `validate`, from the id at `index` on.
unfoldable pub validate_from : IdCol → ℕ → ℕ → Bytes → Option Bytes → Bytes → Result Bytes
validate_from col zero index current previous rest = ok rest
validate_from col (suc n) index current previous rest = do
  check_restart col index rest
  (shared, rest) ← get_varint rest
  (suffix_len, rest) ← get_varint rest
  bail_if (index % restart == 0 && not (shared == 0)) restart_prefix
  bail_if (ltb (length current) shared || ltb (length rest) suffix_len) corrupt_id_entry
  let current = take shared current ++ take suffix_len rest
  bail_if (is_empty_name current) record_id_empty
  bail_if (not (is_utf8 current)) not_utf8
  bail_if (not_above previous current) id_order_or_duplicate
  validate_from col n (index + 1) current (some current) (drop suffix_len rest)

unfoldable pub validate_column : IdCol → Result (Unit {0})
validate_column col = do
  bail_if (not (length col.restarts == (col.len + (restart - 1)) / restart)) restart_count
  rest ← validate_from col col.len 0 [] none col.stream
  bail_if (not (is_empty_name rest)) trailing_bytes
