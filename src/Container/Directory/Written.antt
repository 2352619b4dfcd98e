-- ===== src/Container/Directory/Written.antt =====
-- A whole directory, from `encode_directory` to `read_directory`.
use turndb.Shared.{
  ℕ, ◌+◌, ◌^◌, ◌≤◌, ◌<◌, ◌≡◌, refl, sym, ap, ◌∙◌, true, false, ◌==◌, ltb, List, [], ◌∷◌, ◌++◌,
  append-nil, length, All, All-append, none, Bytes, ok, arith, inl,
}
use turndb.ReadLimits.{ReadLimits, admit_directory_entries}
use turndb.Varint.{varint, get-put_varint}
use turndb.Container.Superblock.{Superblock}
use turndb.Container.Directory.Encode.{
  max_free_extents, Extent, Members, FreeExtent, put_members, put_free, directory_bytes,
}
use turndb.Container.Directory.Ranges.{member_ranges, free_ranges, content_ranges}
use turndb.Container.Directory.Decode.{get_free, parse_directory}
use turndb.Container.Directory.WellFormed.{
  IsInside, IsEntry, IsSummed, IsFree, IsApart, AreApart, IsDirectory,
}
use turndb.Container.Directory.Disjoint.{IsRange, AreApart-check_windows}
use turndb.Container.Directory.RoundTrip.{get_members-append, get_free-append}

pub member_ranges-IsInside :
    (end : ℕ) (dir : Members) → All (IsEntry end) dir → All (IsInside end) (member_ranges dir)
unfolding member_ranges
member_ranges-IsInside end [] h = tt
member_ranges-IsInside end ((name, m) ∷ dir) h =
    All-append (IsInside end) m.extents (member_ranges dir) h.0.member.inside
      (member_ranges-IsInside end dir h.1)

pub free_ranges-IsInside :
    (end seq : ℕ) (free : List FreeExtent)
    → All (IsFree end seq) free
    → All (IsInside end) (free_ranges free)
unfolding free_ranges
free_ranges-IsInside end seq [] h = tt
free_ranges-IsInside end seq ((off, len, freed_seq) ∷ free) h =
    (h.0.inside, free_ranges-IsInside end seq free h.1)

pub content_ranges-IsInside :
    (end seq : ℕ) (dir : Members) (free : List FreeExtent)
    → IsDirectory end seq dir free
    → All (IsInside end) (content_ranges dir free)
content_ranges-IsInside end seq dir free h =
    All-append (IsInside end) (member_ranges dir) (free_ranges free)
      (member_ranges-IsInside end dir h.members) (free_ranges-IsInside end seq free h.freed)

-- Ranges in front of one more, which they do not share a byte with.
pub AreApart-behind :
    (xs : List Extent) (off len : ℕ)
    → All (IsInside off) xs
    → AreApart xs
    → AreApart (xs ++ (off, len) ∷ [])
AreApart-behind [] off len h a = (tt, tt)
AreApart-behind (x ∷ xs) off len h a = (
  All-append (IsApart x) xs ((off, len) ∷ []) a.0 (inl h.0.inside, tt),
  AreApart-behind xs off len h.1 a.1,
)

ranges-IsRange :
    (xs : List Extent) (off len : ℕ)
    → All (IsInside off) xs
    → 0 < len
    → off + len < 2 ^ 64
    → All IsRange (xs ++ (off, len) ∷ [])
ranges-IsRange [] off len h live fits = ((live, fits), tt)
ranges-IsRange (x ∷ xs) off len h live fits =
    ((h.0.live, omega (arith, h.0.inside)), ranges-IsRange xs off len h.1 live fits)

-- The bytes that `encode_directory` writes of a well-formed directory are read back as the
-- directory, under a superblock that has its number of entries and points behind its extents, when
-- checksums have 32 bits, offsets 64, and the limits admit the free extents.
pub parse_directory-directory_bytes :
    (read_limits : ReadLimits) (sb : Superblock) (dir : Members) (free : List FreeExtent)
    → IsDirectory sb.dir_off sb.seq dir free
    → All IsSummed dir
    → sb.n_entries ≡ length dir
    → length dir < 2 ^ 32
    → sb.seq < 2 ^ 64
    → 0 < sb.dir_stored
    → sb.dir_off + sb.dir_stored < 2 ^ 64
    → length free ≤ read_limits.max_directory_entries
    → parse_directory read_limits sb (directory_bytes dir free) ≡ ok (dir, free)
unfolding parse_directory directory_bytes admit_directory_entries
parse_directory-directory_bytes read_limits sb dir free h sums count small seq live fits admitted =
    let counted : (length dir == sb.n_entries) ≡ true = ground (arith, count) in
    let few : ltb max_free_extents (length free) ≡ false = ground (arith, h.few) in
    let within : ltb read_limits.max_directory_entries (length free) ≡ false = ground arith in
    let inside = content_ranges-IsInside sb.dir_off sb.seq dir free h in
    let members =
      get_members-append sb (omega arith) dir none [] (varint (length free) ++ put_free free)
        h.members sums h.ascending (λ name up. tt) in
    let freed =
      ap (λ (b : Bytes). get_free sb (length free) b) (sym (append-nil (put_free free)))
      ∙ get_free-append sb (omega arith) free [] seq h.freed in
    let disjoint =
      AreApart-check_windows (content_ranges dir free ++ (sb.dir_off, sb.dir_stored) ∷ [])
        (ranges-IsRange (content_ranges dir free) sb.dir_off sb.dir_stored inside live fits)
        (AreApart-behind (content_ranges dir free) sb.dir_off sb.dir_stored inside h.apart) in
    rw
      (
        get-put_varint (length dir) (put_members dir ++ (varint (length free) ++ put_free free))
            (omega arith),
        counted,
        members,
        get-put_varint (length free) (put_free free) (omega (arith, h.few)),
        few,
        within,
        freed,
        disjoint,
      )
      refl
