-- ===== src/Container/Directory/Ranges.antt =====
-- The last check of `read_directory`: the committed ranges, sorted, are disjoint.
use turndb.Shared.{
  ◌+◌, ◌-◌, ◌^◌, Bool, ◌==◌, ◌&&◌, ◌||◌, ltb, leb, if◌then◌else◌, List, [], ◌∷◌, ◌++◌, Result, ok,
  ◌>>◌, bail_if, extent_overflow, overlapping_extents,
}
use turndb.Container.Directory.Encode.{Extent, Members, FreeExtent}

-- `<=` of tuples.
abbrev pub extent_le : Extent → Extent → Bool
extent_le (off, len) (off', len') = ltb off off' || off == off' && leb len len'

unfoldable pub insert_sorted : Extent → List Extent → List Extent
insert_sorted x [] = x ∷ []
insert_sorted x (y ∷ ys) =
    let rest = insert_sorted x ys in if extent_le x y then x ∷ y ∷ ys else y ∷ rest

-- `ranges.sort_unstable()`: equal ranges are the same value, so there is one sorted order.
unfoldable pub sort_unstable : List Extent → List Extent
sort_unstable [] = []
sort_unstable (x ∷ xs) = insert_sorted x (sort_unstable xs)

-- `for w in ranges.windows(2)`
unfoldable pub check_windows : List Extent → Result (Unit {0})
check_windows [] = ok tt
check_windows (a ∷ []) = ok tt
check_windows ((off, len) ∷ b ∷ ranges) = do
  bail_if (ltb (2 ^ 64 - 1) (off + len)) extent_overflow
  bail_if (ltb b.0 (off + len)) overlapping_extents
  check_windows (b ∷ ranges)

unfoldable pub member_ranges : Members → List Extent
member_ranges [] = []
member_ranges ((name, m) ∷ dir) = m.extents ++ member_ranges dir

unfoldable pub free_ranges : List FreeExtent → List Extent
free_ranges [] = []
free_ranges ((off, len, freed_seq) ∷ free) = (off, len) ∷ free_ranges free

-- Every committed range but the directory's own.
abbrev pub content_ranges : Members → List FreeExtent → List Extent
content_ranges dir free = member_ranges dir ++ free_ranges free
