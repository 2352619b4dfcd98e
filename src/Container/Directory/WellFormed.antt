-- ===== src/Container/Directory/WellFormed.antt =====
-- What a directory of a container is, as `read_directory` admits it.
use turndb.Shared.{
  ℕ, ◌+◌, ◌%◌, ◌^◌, ◌≤◌, ◌<◌, ◌≡◌, ◌⊎◌, true, false, List, [], ◌∷◌, length, All, Option, none, some,
  Bytes, is_utf8, ok,
}
use turndb.Container.Superblock.{region_start, align}
use turndb.Container.Names.{validate_name}
use turndb.Container.Directory.Encode.{
  max_free_extents, max_member_extents, Extent, Member, Members, FreeExtent,
}
use turndb.Container.Directory.Ranges.{content_ranges}
use turndb.Container.Directory.Decode.{out_of_order}

-- An extent of the member region, which ends at `end`.
pub record IsInside (end : ℕ) (e : Extent) : Type 0 where
  pub behind_slots : region_start ≤ e.0
  pub aligned : e.0 % align ≡ 0
  pub inside : e.0 + e.1 ≤ end
  pub live : 0 < e.1

abbrev pub total : List Extent → ℕ
total [] = 0
total ((off, len) ∷ extents) = len + total extents

pub record IsMember (end : ℕ) (m : Member) : Type 0 where
  pub few : length m.extents ≤ max_member_extents
  pub inside : All (IsInside end) m.extents
  pub len : total m.extents ≡ m.len
  pub fits : m.len < 2 ^ 64

pub record IsEntry (end : ℕ) (entry : Bytes × Member) : Type 0 where
  pub valid : validate_name entry.0 ≡ ok tt
  pub text : is_utf8 entry.0 ≡ true
  pub member : IsMember end entry.1

-- The checksum is a `u32`.
abbrev pub IsSummed : Bytes × Member → Type 0
IsSummed (name, m) = m.xsum < 2 ^ 32

pub record IsFree (end seq : ℕ) (e : FreeExtent) : Type 0 where
  pub inside : IsInside end (e.0, e.1)
  pub freed : e.2 ≤ seq

-- The names ascend, from the previous one on.
abbrev pub IsAscending : Option Bytes → Members → Type 0
IsAscending previous [] = Unit {0}
IsAscending previous ((name, m) ∷ dir) =
    (out_of_order previous name ≡ false) × IsAscending (some name) dir

abbrev pub IsApart : Extent → Extent → Type 0
IsApart (off, len) (off', len') = (off + len ≤ off') ⊎ (off' + len' ≤ off)

-- No byte is in two of the ranges.
abbrev pub AreApart : List Extent → Type 0
AreApart [] = Unit {0}
AreApart (x ∷ xs) = All (IsApart x) xs × AreApart xs

pub record IsDirectory (end seq : ℕ) (dir : Members) (free : List FreeExtent) : Type 0 where
  pub members : All (IsEntry end) dir
  pub ascending : IsAscending none dir
  pub freed : All (IsFree end seq) free
  pub few : length free ≤ max_free_extents
  pub apart : AreApart (content_ranges dir free)
