-- ===== src/Container/State.antt =====
-- The handle of a container, and how it is opened.
use turndb.Shared.{
  ℕ, ◌+◌, ◌-◌, ◌^◌, Bool, true, false, ltb, if◌then◌else◌, List, [], length, Option, none, some,
  Bytes, Error, Result, ok, err, ◌>>=◌, ◌>>◌, bail_if, poisoned_container, member_write_open,
  container_too_short, container_truncated, sequence_exhausted,
}
use turndb.Shared.Digests.{Digests}
use turndb.ReadLimits.{ReadLimits}
use turndb.Block.Codec.{Zstd}
use turndb.Container.Superblock.{Superblock, region_start, slot_len, empty, live}
use turndb.Container.Directory.Encode.{Members, FreeExtent}
use turndb.Container.Directory.Decode.{Directory, read_exact_at, read_directory}

-- `Container`: `f` is the identity of the open file, and `file` its contents.
pub record Container : Type 0 where
  pub f : ℕ
  pub file : Bytes
  pub dir : Members
  pub free : List FreeExtent
  pub sb : Superblock
  pub tail : ℕ
  pub slot : ℕ
  pub staged : Bool
  pub open_member : Option ℕ
  pub next_member_token : ℕ
  pub poisoned : Bool
  pub failed_publication_selected : Option Bool
  pub publication_acknowledged : Bool
  pub read_limits : ReadLimits

-- `MemberWrite`: `hashed` is what both hashers have been fed.
pub record MemberWrite : Type 0 where
  pub f : ℕ
  pub token : ℕ
  pub name : Bytes
  pub off : ℕ
  pub written : ℕ
  pub hashed : Bytes

unfoldable pub empty_handle : ℕ → Bytes → ReadLimits → Container
empty_handle f file read_limits = record {
  f = f;
  file = file;
  dir = [];
  free = [];
  sb = empty;
  tail = region_start;
  slot = 0;
  staged = false;
  open_member = none;
  next_member_token = 0;
  poisoned = false;
  failed_publication_selected = none;
  publication_acknowledged = true;
  read_limits = read_limits;
}

abbrev pub is_some {ℓ} : {A : Type ℓ} → Option A → Bool
is_some none = false
is_some (some a) = true

unfoldable pub ensure_writable : Container → Result (Unit {0})
ensure_writable c = do
  bail_if c.poisoned poisoned_container
  bail_if (is_some c.open_member) member_write_open

-- `a.checked_add(b)`, an overflow reported.
abbrev pub checked_add : ℕ → ℕ → Error → Result ℕ
checked_add a b e = if ltb (2 ^ 64 - 1) (a + b) then err e else ok (a + b)

-- The sequence of the next commit.
abbrev pub next_seq : Container → Result ℕ
next_seq c = checked_add c.sb.seq 1 sequence_exhausted

-- `u64::from(self.sb.dir_stored != 0)`
abbrev pub has_directory : Superblock → ℕ
has_directory sb = if ltb 0 sb.dir_stored then 1 else 0

module _ (d : Digests) (z : Zstd) where
  -- The selected superblock of a file, its slot, and the directory that it publishes. The file
  -- does not change while it is opened, so its length is taken once.
  unfoldable pub selected_state : Bytes → ReadLimits → Result (Superblock × ℕ × Directory)
  selected_state file read_limits = do
    bail_if (ltb (length file) region_start) container_too_short
    a ← read_exact_at file slot_len 0
    b ← read_exact_at file slot_len slot_len
    (sb, slot) ← live d (a, b)
    bail_if (ltb (length file) sb.tail) container_truncated
    directory ← read_directory d z file sb read_limits
    ok (sb, slot, directory)

  unfoldable pub open_internal : ℕ → Bytes → ReadLimits → Result Container
  open_internal f file read_limits = do
    (sb, slot, (dir, free)) ← selected_state file read_limits
    ok (record {
      f = f;
      file = file;
      dir = dir;
      free = free;
      sb = sb;
      tail = sb.tail;
      slot = slot;
      staged = false;
      open_member = none;
      next_member_token = 0;
      poisoned = false;
      failed_publication_selected = none;
      publication_acknowledged = false;
      read_limits = read_limits;
    })
