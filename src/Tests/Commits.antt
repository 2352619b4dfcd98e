-- ===== src/Tests/Commits.antt =====
-- A container in memory: its birth, a staged member, and the commit that publishes it.
use turndb.Shared.{
  ℕ, ◌+◌, ◌≡◌, refl, true, false, List, [], ◌∷◌, none, Bytes, bytes_eq, is_utf8, ok, arith,
}
use turndb.ReadLimits.{default_limits}
use turndb.Block.Codec.{Zstd}
use turndb.Block.Codec
use turndb.Container.Superblock.{empty, decode, align_up}
use turndb.Container.Names.{validate_name, split}
use turndb.Container.Birth.{blank_slot, empty_birth_image, selected_state-empty_birth_image}
use turndb.Container.Directory.Encode.{
  Member, directory_bytes, encode_directory, encoded_directory_len, put_members, put_member,
  put_extents, put_free,
}
use turndb.Container.State.{Container, empty_handle, selected_state, ensure_writable}
use turndb.Container.Directory.Ranges.{member_ranges, free_ranges}
use turndb.Container.Directory.WellFormed.{IsInside, IsDirectory}
use turndb.Container.Preflight.{
  preflight_member, aligned_start, preflight_replacement, check_free_count,
}
use turndb.Container.Staging
use turndb.Container.Staging.{write_out, stage_entry, staged_entry}
use turndb.Shared.Maps.{find, insert}
use turndb.Container.Staging.Invisible.{Call, put_bytes, step, run, run-invisible}
use turndb.Container.Commit.{
  commit, next_free_of, commit_staged, prepare, publish_prepared, flip, sync,
}
use turndb.Varint.{varint_len, put_varint}
use turndb.Shared.Words.{to_le_bytes}
use turndb.Container.Commit.Prepare.{IsCommittable}
use turndb.Container.Commit.Refines.{commit-Commits}
use turndb.Tests.Samples.{toy}
use turndb.Tests.Disks.{squeeze, small_zstd, memory_disk}

blank : decode toy blank_slot ≡ ok none
unfolding decode bytes_eq
blank = refl

created : Container
unfolding empty_handle
created = empty_handle 1 (empty_birth_image toy) default_limits

created-selected :
    selected_state toy small_zstd created.file created.read_limits
    ≡ ok (created.sb, created.slot, ([], []))
unfolding created empty_birth_image
created-selected = selected_state-empty_birth_image toy small_zstd default_limits blank

-- b"a"
abbrev pub name : Bytes
name = 0x61 ∷ []

abbrev three : Bytes
three = 1 ∷ 2 ∷ 3 ∷ []

abbrev calls : List Call
calls = put_bytes name three ∷ []

abbrev combine : ℕ → ℕ → Bytes → ℕ
combine xsum len delta = xsum

abbrev staged : Container
staged = (run memory_disk toy small_zstd combine calls (created, none)).0

run-invisible_example :
    selected_state toy small_zstd staged.file created.read_limits
    ≡ ok (created.sb, created.slot, ([], []))
unfolding created
run-invisible_example =
    run-invisible memory_disk toy small_zstd combine created calls created-selected (omega arith)

abbrev pub member : Member
member = record { extents = (8192, 3) ∷ []; len = 3; xsum = 6 }

-- The handle behind the staging, field by field.
abbrev ready : Container
ready = record {
  f = 1;
  file = staged.file;
  dir = (name, member) ∷ [];
  free = [];
  sb = empty;
  tail = 8195;
  slot = 0;
  staged = true;
  open_member = none;
  next_member_token = 0;
  poisoned = false;
  failed_publication_selected = none;
  publication_acknowledged = true;
  read_limits = default_limits;
}

staged-ready : staged ≡ ready
unfolding created empty_handle run step Staging.put_bytes preflight_member ensure_writable
    validate_name split bytes_eq aligned_start align_up preflight_replacement find check_free_count
    write_out stage_entry staged_entry insert
staged-ready = refl

ready-selected :
    selected_state toy small_zstd ready.file ready.read_limits ≡ ok (ready.sb, ready.slot, ([], []))
unfolding created empty_handle
ready-selected = run-invisible_example

pub name-valid : validate_name name ≡ ok tt
unfolding validate_name split bytes_eq
name-valid = refl

pub name-text : is_utf8 name ≡ true
unfolding is_utf8
name-text = refl

pub member_extent-IsInside : IsInside 8195 (8192, 3)
member_extent-IsInside = record {
  behind_slots = omega arith;
  aligned = refl;
  inside = omega arith;
  live = omega arith;
}

ready-IsDirectory : IsDirectory 8195 1 ((name, member) ∷ []) []
unfolding member_ranges free_ranges
ready-IsDirectory = record {
  members = (
    record {
      valid = name-valid;
      text = name-text;
      member = record {
        few = omega arith;
        inside = (member_extent-IsInside, tt);
        len = refl;
        fits = omega arith;
      };
    },
    tt,
  );
  ascending = (refl, tt);
  freed = tt;
  few = omega arith;
  apart = (tt, tt);
}

ready-IsCommittable : IsCommittable toy small_zstd ready
ready-IsCommittable = record {
  committed = ([], []);
  selected = ready-selected;
  behind = omega arith;
  directory = ready-IsDirectory;
  summed = (omega arith, tt);
  typed = (((omega arith, omega arith, ((omega arith, omega arith), tt)), tt), tt);
  members = omega arith;
  free = omega arith;
  stored = omega arith;
  raw = omega arith;
}

abbrev committed : Container
committed = (commit memory_disk toy small_zstd ready).1

commit-ok : commit memory_disk toy small_zstd ready ≡ (ok 1, committed)
unfolding commit ensure_writable commit_staged prepare encode_directory encoded_directory_len
    varint_len Codec.encode directory_bytes put_varint put_members put_member put_extents
    to_le_bytes put_free squeeze bytes_eq align_up publish_prepared flip sync write_out
commit-ok = refl

commit-Commits_example :
    (1 ≡ ready.sb.seq + 1)
    × (committed.sb.seq ≡ 1)
    × (committed.dir ≡ ready.dir)
    × (committed.free ≡ next_free_of (ready.sb.seq + 1) ready)
    × (selected_state toy small_zstd committed.file ready.read_limits
        ≡ ok (committed.sb, committed.slot, (committed.dir, committed.free)))
commit-Commits_example =
    commit-Commits memory_disk toy small_zstd ready ready-IsCommittable refl commit-ok
