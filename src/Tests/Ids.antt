-- ===== src/Tests/Ids.antt =====
-- A column of three ids.
use turndb.Shared.{◌≡◌, refl, List, [], ◌∷◌, some, Bytes, bytes_eq, bytes_lt, is_utf8, ok, arith}
use turndb.Varint.{varint_small}
use turndb.IdCol.{
  shared_prefix, shared_at, entry, checked_stream_end, build_from, build, IdCol, get, find,
  lower_bound, validate_column,
}
use turndb.IdCol.Order.{position, rank}
use turndb.IdCol.Build.{get-build, find-build, lower_bound-build}
use turndb.IdCol.Validate.{validate_column-build}
use turndb.IdCol.Cursor.{cursor, drain, drain-build}

-- "a", "ab" and "b"
abbrev three_ids : List Bytes
three_ids = (97 ∷ []) ∷ (97 ∷ 98 ∷ []) ∷ (98 ∷ []) ∷ []

abbrev three_stream : Bytes
three_stream = 0 ∷ 1 ∷ 97 ∷ 1 ∷ 1 ∷ 98 ∷ 0 ∷ 1 ∷ 98 ∷ []

abbrev three_column : IdCol
three_column = record { stream = three_stream; restarts = 0 ∷ []; len = 3 }

three-build : build three_ids ≡ ok (three_stream, 0 ∷ [])
unfolding build build_from entry shared_at shared_prefix checked_stream_end bytes_lt
three-build = rw (varint_small 0 (omega arith), varint_small 1 (omega arith)) refl

get-build_example : get three_column 1 ≡ ok (97 ∷ 98 ∷ [])
get-build_example = get-build three_ids 1 three-build

find-build_example : find three_column (98 ∷ []) ≡ ok (some 2)
unfolding position bytes_eq
find-build_example = find-build three_ids (98 ∷ []) three-build

lower_bound-build_example : lower_bound three_column (97 ∷ 97 ∷ []) ≡ ok 1
unfolding rank bytes_lt
lower_bound-build_example = lower_bound-build three_ids (97 ∷ 97 ∷ []) three-build

validate_column-build_example : validate_column three_column ≡ ok tt
unfolding is_utf8
validate_column-build_example =
    validate_column-build three_ids ((refl, refl), ((refl, refl), ((refl, refl), tt))) three-build

drain-build_example : drain 4 (cursor three_column) ≡ ok three_ids
drain-build_example = drain-build three_ids three-build
