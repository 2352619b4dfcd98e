-- ===== src/IdCol/Build.antt =====
-- The column that `build` has written.
use turndb.Shared.{
  ℕ, zero, suc, ◌+◌, ◌-◌, ◌^◌, ◌≤◌, ◌<◌, ◌≡◌, refl, ap, ◌∙◌, inr, true, not, ◌&&◌, ltb, leb, List,
  [], ◌∷◌, ◌++◌, length, length-append, length-drop, drop, get_elem?, Option, none, some, All,
  Bytes, bytes_lt, ok, err, >>=-eq-ok, bail_if, bail_if-eq-ok, id_order, id_index, arith,
}
use turndb.Varint.{varint}
use turndb.IdCol.Defs.{
  shared_at, entry, build_from, build, checked_stream_end, IdCol, iter, get, some_or, find,
  lower_bound,
}
use turndb.IdCol.Stream.{Short, AboveFrom, shared_fits, build_from-inv, iter_from-entries}
use turndb.IdCol.Access.{column_of, get-column_of}
use turndb.IdCol.Order.{position, rank}
use turndb.IdCol.Lookup.{find-column_of}
use turndb.IdCol.Bound.{lower_bound-column_of}

length-entry : (i : ℕ) (prev cur : Bytes) → length cur ≤ length prev + length (entry i prev cur)
unfolding entry
length-entry i prev cur =
    let shared = shared_at i prev cur in
    let (low, high, whole) = shared_fits i prev prev cur (inr refl) in
    omega (
      arith,
      length-append {0} (varint shared) (varint (length cur - shared) ++ drop shared cur),
      length-append {0} (varint (length cur - shared)) (drop shared cur),
      length-drop shared cur,
    )

checked_stream_end-inv : (a b : ℕ) {end : ℕ} → checked_stream_end a b ≡ ok end → a + b < 2 ^ 32
unfolding checked_stream_end
checked_stream_end-inv a b h =
    let (u, first, k) = >>=-eq-ok (bail_if (ltb (2 ^ 64 - 1) (a + b)) _) _ h in
    let (v, second, k) = >>=-eq-ok (bail_if (ltb (2 ^ 32 - 1) (a + b)) _) _ k in
    let low = bail_if-eq-ok (ltb (2 ^ 32 - 1) (a + b)) _ second in ground arith

-- What fits in the stream is short: an id is no longer than the stream up to its entry.
build_from-Short :
    (i : ℕ) (prev stream : Bytes) (restarts : List ℕ) (ids : List Bytes) {s : Bytes} {r : List ℕ}
    → length prev ≤ length stream
    → build_from i prev stream restarts ids ≡ ok (s, r)
    → All Short ids
unfolding build_from
build_from-Short i prev stream restarts [] le h = tt
build_from-Short i prev stream restarts (cur ∷ ids) le h =
    let (u, ordered, k) = >>=-eq-ok (bail_if (ltb 0 i && not (bytes_lt prev cur)) id_order) _ h in
    let (end, counted, k) =
      >>=-eq-ok (checked_stream_end (length stream) (length (entry i prev cur))) _ k in
    let short = checked_stream_end-inv (length stream) (length (entry i prev cur)) counted in
    let fits = length-entry i prev cur in
    (
      omega arith,
      build_from-Short (i + 1) cur (stream ++ entry i prev cur) _ ids
          (omega (arith, length-append {0} stream (entry i prev cur))) k,
    )

pub build-column_of :
    (ids : List Bytes) {s : Bytes} {r : List ℕ}
    → build ids ≡ ok (s, r)
    → (record { stream = s; restarts = r; len = length ids } ≡ column_of ids)
      × All Short ids
      × AboveFrom 0 [] ids
unfolding build
build-column_of ids h =
    let (stream, restarts, above) = build_from-inv 0 [] [] [] ids h in
    (rw (stream, restarts) refl, build_from-Short 0 [] [] [] ids (omega arith) h, above)

-- When `build` accepts the ids, `iter` over the stream and restart points it returns gives the
-- same ids back, in their order.
pub iter-build :
    (ids : List Bytes) {s : Bytes} {r : List ℕ}
    → build ids ≡ ok (s, r)
    → iter (record { stream = s; restarts = r; len = length ids }) ≡ ok ids
unfolding iter
iter-build ids h =
    let (column, short, above) = build-column_of ids h in
    ap iter column ∙ rw (iter_from-entries 0 [] [] ids (inr refl) short) refl

get_elem?-none : (ids : List Bytes) (i : ℕ) → get_elem? ids i ≡ none → leb (length ids) i ≡ true
get_elem?-none [] i h = ground arith
get_elem?-none (x ∷ ids) zero h = cc
get_elem?-none (x ∷ ids) (suc i) h = let q = get_elem?-none ids i h in ground arith

get_outside :
    (ids : List Bytes) (i : ℕ) → get_elem? ids i ≡ none → get (column_of ids) i ≡ err id_index
unfolding get
get_outside ids i h = rw (get_elem?-none ids i h) refl

-- When `build` accepts the ids, `get` on the column returns the id at the index, found from its
-- restart point, and the error for an index out of range exactly when there is no such id.
pub get-build :
    (ids : List Bytes) {s : Bytes} {r : List ℕ} (i : ℕ)
    → build ids ≡ ok (s, r)
    → get (record { stream = s; restarts = r; len = length ids }) i
      ≡ some_or id_index (get_elem? ids i)
get-build ids i h =
    let (column, short, above) = build-column_of ids h in
    ap (λ (col : IdCol). get col i) column ∙ by_index (get_elem? ids i) refl short
  where
    by_index :
        (o : Option Bytes)
        → get_elem? ids i ≡ o
        → All Short ids
        → get (column_of ids) i ≡ some_or id_index o
    by_index none e short = get_outside ids i e
    by_index (some id) e short = get-column_of ids i short e

-- When `build` accepts the ids, `find` on the column, which searches the restart points and then
-- walks one group, returns the index of the needle among the ids, or none when it is not among
-- them, as the linear search does, and no error.
pub find-build :
    (ids : List Bytes) {s : Bytes} {r : List ℕ} (needle : Bytes)
    → build ids ≡ ok (s, r)
    → find (record { stream = s; restarts = r; len = length ids }) needle ≡ ok (position needle ids)
find-build ids needle h =
    let (column, short, above) = build-column_of ids h in
    ap (λ (col : IdCol). find col needle) column ∙ find-column_of ids needle short above

-- When `build` accepts the ids, `lower_bound` on the column returns how many ids are below the
-- needle, counted up to the first one that is not, and no error.
pub lower_bound-build :
    (ids : List Bytes) {s : Bytes} {r : List ℕ} (needle : Bytes)
    → build ids ≡ ok (s, r)
    → lower_bound (record { stream = s; restarts = r; len = length ids }) needle
      ≡ ok (rank needle ids)
lower_bound-build ids needle h =
    let (column, short, above) = build-column_of ids h in
    ap (λ (col : IdCol). lower_bound col needle) column
    ∙ lower_bound-column_of ids needle short above
