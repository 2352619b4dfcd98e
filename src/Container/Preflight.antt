-- ===== src/Container/Preflight.antt =====
-- src/container.rs: what is proved of a change before it is staged.
use turndb.Shared.{
  ℕ, Bool, false, not, ◌==◌, ◌&&◌, ltb, leb, if◌then◌else◌, List, [], ◌∷◌, length, Option, none,
  some, Bytes, Result, ok, err, ◌>>=◌, ◌>>◌, bail_if, length_overflow, member_length_overflow,
  extents_over_ceiling, free_over_ceiling, members_over_ceiling, extent_overflow, tokens_exhausted,
  no_member_write, stale_member_write, member_not_found,
}
use turndb.Shared.Maps.{find, contains}
use turndb.Container.Superblock.{align_up}
use turndb.Container.Names.{validate_name}
use turndb.Container.Directory.Encode.{max_free_extents, max_member_extents, Extent, Member}
use turndb.Container.Superblock.{max_members}
use turndb.Container.State.{
  Container, MemberWrite, is_some, ensure_writable, checked_add, next_seq, has_directory,
}

unfoldable pub aligned_start : Container → Result ℕ
aligned_start c = align_up c.tail

abbrev pub extents_of : Option Member → List Extent
extents_of none = []
extents_of (some m) = m.extents

-- The free extents of the next directory: those of now, `released`, and the old directory's.
unfoldable pub check_free_count : ℕ → Container → Result (Unit {0})
check_free_count released c = do
  count ← checked_add (length c.free) released length_overflow
  count ← checked_add count (has_directory c.sb) length_overflow
  bail_if (ltb max_free_extents count) free_over_ceiling

unfoldable pub preflight_replacement : Bytes → ℕ → Container → Result (Unit {0})
preflight_replacement name new_extents c = do
  bail_if (not (contains (find name c.dir)) && leb max_members (length c.dir)) members_over_ceiling
  bail_if (ltb max_member_extents new_extents) extents_over_ceiling
  check_free_count (length (extents_of (find name c.dir))) c

unfoldable pub preflight_member : Bytes → ℕ → Container → Result ℕ
preflight_member name len c = do
  ensure_writable c
  validate_name name
  off ← aligned_start c
  end ← checked_add off len length_overflow
  seq ← next_seq c
  preflight_replacement name (if len == 0 then 0 else 1) c
  ok off

abbrev pub last : List Extent → Option Extent
last [] = none
last (e ∷ []) = some e
last (e ∷ f ∷ extents) = last (f ∷ extents)

-- Whether the last extent ends at the staging cursor.
abbrev pub ends_at : ℕ → Option Extent → Result Bool
ends_at tail none = ok false
ends_at tail (some (off, len)) = do end ← checked_add off len extent_overflow; ok (end == tail)

abbrev pub last_len : Option Extent → ℕ
last_len none = 0
last_len (some (off, len)) = len

abbrev pub member_or_error : Option Member → Result Member
member_or_error none = err member_not_found
member_or_error (some m) = ok m

-- What `append_stream` will do: whether it extends the last extent, and from where to where.
pub record Append : Type 0 where
  pub member : Member
  pub coalesce : Bool
  pub write_off : ℕ
  pub write_end : ℕ

unfoldable pub preflight_append : Bytes → ℕ → Container → Result Append
preflight_append name len c = do
  m ← member_or_error (find name c.dir)
  check_free_count 0 c
  seq ← next_seq c
  total ← checked_add m.len len member_length_overflow
  coalesce ← ends_at c.tail (last m.extents)
  bail_if (not coalesce && leb max_member_extents (length m.extents)) extents_over_ceiling
  write_off ← if coalesce then ok c.tail else aligned_start c
  write_end ← checked_add write_off len length_overflow
  grown ← if coalesce then checked_add (last_len (last m.extents)) len extent_overflow else ok 0
  ok (record { member = m; coalesce = coalesce; write_off = write_off; write_end = write_end })

-- The start of a new member, and its token.
unfoldable pub preflight_begin : Bytes → Container → Result (ℕ × ℕ)
preflight_begin name c = do
  ensure_writable c
  validate_name name
  preflight_replacement name 1 c
  off ← aligned_start c
  seq ← next_seq c
  token ← checked_add c.next_member_token 1 tokens_exhausted
  ok (off, token)

abbrev pub is_token : ℕ → Option ℕ → Bool
is_token token none = false
is_token token (some current) = current == token

-- Whether a handle is the write in progress.
unfoldable pub check_current : MemberWrite → Container → Result (Unit {0})
check_current w c =
    if is_token w.token c.open_member && c.f == w.f
    then ok tt
    else if is_some c.open_member
    then err stale_member_write
    else err no_member_write
