-- ===== src/Container/Directory/Encode.antt =====
-- `Member`, `encoded_directory_len` and `encode_directory`.
use turndb.Shared.{
  ℕ, ◌+◌, ◌-◌, ◌^◌, ltb, if◌then◌else◌, List, [], ◌∷◌, ◌++◌, length, Bytes, Result, ok, err, ◌>>=◌,
  ◌>>◌, bail_if, directory_length_overflow, directory_too_large,
}
use turndb.Shared.Words.{to_le_bytes}
use turndb.Container.Superblock.{max_dir_raw}
use turndb.Varint.{varint, varint_len}

-- `MAX_FREE_EXTENTS` and `MAX_MEMBER_EXTENTS`
abbrev pub max_free_extents : ℕ
max_free_extents = 1_000_000

abbrev pub max_member_extents : ℕ
max_member_extents = 2 ^ 16

-- An extent is its offset and its length.
abbrev pub Extent : Type 0
Extent = ℕ × ℕ

pub record Member : Type 0 where
  pub extents : List Extent
  pub len : ℕ
  pub xsum : ℕ

-- `BTreeMap<String, Member>`
abbrev pub Members : Type 0
Members = List (Bytes × Member)

-- A free extent, and the sequence number that freed it.
abbrev pub FreeExtent : Type 0
FreeExtent = ℕ × ℕ × ℕ

-- `len.checked_add(more)`, the overflow reported.
abbrev pub grow : ℕ → ℕ → Result ℕ
grow len more =
    if ltb (2 ^ 64 - 1) (len + more) then err directory_length_overflow else ok (len + more)

unfoldable pub extents_len : ℕ → List Extent → Result ℕ
extents_len len [] = ok len
extents_len len ((off, extent_len) ∷ extents) = do
  len ← grow len (varint_len off)
  len ← grow len (varint_len extent_len)
  extents_len len extents

unfoldable pub members_len : ℕ → Members → Result ℕ
members_len len [] = ok len
members_len len ((name, member) ∷ dir) = do
  len ← grow len (varint_len (length name))
  len ← grow len (length name)
  len ← grow len (varint_len (length member.extents))
  len ← extents_len len member.extents
  len ← grow len 4
  members_len len dir

unfoldable pub free_len : ℕ → List FreeExtent → Result ℕ
free_len len [] = ok len
free_len len ((off, extent_len, freed_seq) ∷ free) = do
  len ← grow len (varint_len off)
  len ← grow len (varint_len extent_len)
  len ← grow len (varint_len freed_seq)
  free_len len free

unfoldable pub encoded_directory_len : Members → List FreeExtent → Result ℕ
unfolding extents_len members_len free_len
encoded_directory_len dir free = do
  len ← members_len (varint_len (length dir)) dir
  len ← grow len (varint_len (length free))
  free_len len free

unfoldable pub put_extents : List Extent → Bytes
put_extents [] = []
put_extents ((off, len) ∷ extents) = varint off ++ (varint len ++ put_extents extents)

unfoldable pub put_member : Bytes → Member → Bytes
put_member name m =
    varint (length name)
    ++ (name ++ (varint (length m.extents) ++ (put_extents m.extents ++ to_le_bytes 4 m.xsum)))

unfoldable pub put_members : Members → Bytes
put_members [] = []
put_members ((name, m) ∷ dir) = put_member name m ++ put_members dir

unfoldable pub put_free : List FreeExtent → Bytes
put_free [] = []
put_free ((off, len, freed_seq) ∷ free) =
    varint off ++ (varint len ++ (varint freed_seq ++ put_free free))

-- The bytes that `encode_directory` writes.
unfoldable pub directory_bytes : Members → List FreeExtent → Bytes
directory_bytes dir free =
    varint (length dir) ++ (put_members dir ++ (varint (length free) ++ put_free free))

unfoldable pub encode_directory : Members → List FreeExtent → Result Bytes
encode_directory dir free = do
  encoded_len ← encoded_directory_len dir free
  bail_if (ltb max_dir_raw encoded_len) directory_too_large
  ok (directory_bytes dir free)
