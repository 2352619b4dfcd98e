-- ===== src/Container/Staging.antt =====
-- src/container.rs: what a handle stages behind the committed state.
mod Behind
mod Operations
pub mod Invisible
use turndb.Shared.{
  ℕ, zero, suc, ◌+◌, ◌-◌, ◌*◌, ◌^◌, ◌≡◌, Bool, true, false, not, ◌==◌, ltb, min, max, if◌then◌else◌,
  List, [], ◌∷◌, ◌++◌, map, length, Option, none, some, Bytes, Result, ok, err, OnOk, bail_if,
  length_overflow, io_failure, member_length_overflow, out_of_fuel, write_out_of_order,
}
use turndb.Shared.Digests.{Digests}
use turndb.Shared.Exec.{Exec, pure, lift, ◌>>=◌, ◌>>◌}
use turndb.Shared.Maps.{find, insert, remove}
use turndb.Block.Codec.{Zstd}
use turndb.Container.Disk.{Disk}
use turndb.Container.Directory.Encode.{Extent, Member, Members, FreeExtent}
use turndb.Container.Directory.Decode.{read_directory}
use turndb.Container.State.{Container, MemberWrite, ensure_writable, checked_add, next_seq}
use turndb.Container.Preflight.{
  extents_of, check_free_count, preflight_member, Append, preflight_append, preflight_begin,
  check_current,
}

abbrev pub Done : Type 0
Done = Unit {0}

-- A method on `&self`, and a change of the fields.
abbrev pub check : {A : Type 0} → (Container → Result A) → Exec Container A
check f c = (f c, c)

abbrev pub modify : (Container → Container) → Exec Container Done
modify f c = (ok tt, f c)

abbrev pub stamp : ℕ → List Extent → List FreeExtent
stamp seq [] = []
stamp seq ((off, len) ∷ extents) = (off, len, seq) ∷ stamp seq extents

-- The closure that fills a window of a stream, from an offset on.
pub record Fill : Type 0 where
  pub window : ℕ → ℕ → Result Bytes
  pub length-window : (at take : ℕ) → OnOk (λ b. length b ≡ take) (window at take)

-- `vec![0u8; (1 << 20).min(len.max(1))]`
abbrev pub window_len : ℕ → ℕ
window_len len = min (2 ^ 20) (max len 1)

abbrev pub fresh_extents : ℕ → ℕ → List Extent
fresh_extents off len = if len == 0 then [] else (off, len) ∷ []

abbrev pub grow_last : ℕ → List Extent → List Extent
grow_last len [] = []
grow_last len ((off, ext_len) ∷ []) = (off, ext_len + len) ∷ []
grow_last len (e ∷ f ∷ extents) = e ∷ grow_last len (f ∷ extents)

unfoldable pub staged_entry : Bytes → ℕ → ℕ → ℕ → ℕ → Container → Container
staged_entry name off len xsum seq c = record c {
  dir = insert name (record { extents = fresh_extents off len; len = len; xsum = xsum }) c.dir;
  free = c.free ++ stamp seq (extents_of (find name c.dir));
  tail = off + len;
  staged = true;
}

unfoldable pub stage_entry : Bytes → ℕ → ℕ → ℕ → Exec Container Done
stage_entry name off len xsum = do
  lift (checked_add off len length_overflow)
  seq ← check next_seq
  modify (staged_entry name off len xsum seq)

unfoldable pub without_member : Bytes → Member → ℕ → Container → Container
without_member name m seq c = record c {
  dir = remove name c.dir;
  free = c.free ++ stamp seq m.extents;
  staged = true;
}

unfoldable pub remove_found : Option Member → Bytes → ℕ → Exec Container Bool
remove_found none name seq = pure false
remove_found (some m) name seq = do
  check (check_free_count (length m.extents))
  modify (without_member name m seq)
  pure true

unfoldable pub remove_member : Bytes → Exec Container Bool
remove_member name = do
  check ensure_writable
  seq ← check next_seq
  λ c. remove_found (find name c.dir) name seq c

unfoldable pub abandon_open_member : Exec Container Done
abandon_open_member = modify (λ c. record c { open_member = none })

unfoldable pub abandon_member : MemberWrite → Exec Container Done
abandon_member w = do check (check_current w); abandon_open_member

unfoldable pub begin_member : Bytes → Exec Container MemberWrite
begin_member name = do
  (off, token) ← check (preflight_begin name)
  modify (λ c. record c { next_member_token = token; open_member = some token })
  λ c. pure (record { f = c.f; token = token; name = name; off = off; written = 0; hashed = [] }) c

module _ (d : Digests) where
  unfoldable pub finish_member : MemberWrite → Exec Container Bytes
  finish_member w = do
    check (check_current w)
    abandon_open_member
    stage_entry w.name w.off w.written (d.crc32 w.hashed)
    pure (d.blake3 w.hashed)

module _ (d : Digests) (z : Zstd) where
  unfoldable pub discard_staged : Exec Container Done
  discard_staged = do
    (dir, free) ← check (λ c. read_directory d z c.file c.sb c.read_limits)
    modify (λ c. record c {
      dir = dir;
      free = free;
      tail = c.sb.tail;
      staged = false;
      open_member = none;
    })

module _ (crc_combine : ℕ → ℕ → Bytes → ℕ) where
  -- The member with the stream behind it; `crc_combine` extends a checksum over a length.
  unfoldable pub extended : Append → ℕ → Bytes → Member
  extended plan len delta = record {
    extents =
        if plan.coalesce
        then grow_last len plan.member.extents
        else plan.member.extents ++ (plan.write_off, len) ∷ [];
    len = plan.member.len + len;
    xsum = crc_combine plan.member.xsum plan.member.len delta;
  }

module _ (disk : Disk) where
  unfoldable pub write_out : Bytes → ℕ → Exec Container Done
  write_out bytes off c =
      let (done, file) = disk.write_all_at c.file bytes off in
      (if done then ok tt else err io_failure, record c { file = file })

  -- `ArtifactSink::write_all_at` of `MemberWrite`: the handle with what it has written.
  unfoldable pub write_member : MemberWrite → Bytes → ℕ → Exec Container MemberWrite
  write_member w buf off = do
    lift (bail_if (not (off == w.written)) write_out_of_order)
    written ← lift (checked_add w.written (length buf) member_length_overflow)
    physical ← lift (checked_add w.off off length_overflow)
    lift (checked_add physical (length buf) length_overflow)
    write_out buf physical
    pure (record w { written = written; hashed = w.hashed ++ buf })

  -- `while at < len`, over the bytes hashed so far; each round takes one byte at least.
  unfoldable pub write_stream : ℕ → Fill → ℕ → ℕ → ℕ → Bytes → Exec Container Bytes
  write_stream zero fill len off at hashed = lift (err out_of_fuel)
  write_stream (suc rounds) fill len off at hashed =
      let size : ℕ = min (window_len len) (len - at) in
      let rest : Bytes → Exec Container Bytes =
        λ chunk. write_stream rounds fill len off (at + size) (hashed ++ chunk) in
      if ltb at len
      then (do
        chunk ← lift (fill.window at size)
        physical ← lift (checked_add off at length_overflow)
        write_out chunk physical
        lift (checked_add at size length_overflow)
        rest chunk)
      else pure hashed

  module _ (d : Digests) where
    unfoldable pub put_bytes : Bytes → Bytes → Exec Container Done
    put_bytes name bytes = do
      off ← check (preflight_member name (length bytes))
      write_out bytes off
      stage_entry name off (length bytes) (d.crc32 bytes)

    unfoldable pub put_stream : Bytes → ℕ → Fill → Exec Container Done
    put_stream name len fill = do
      off ← check (preflight_member name len)
      hashed ← write_stream (len + 1) fill len off 0 []
      stage_entry name off len (d.crc32 hashed)

  module _ (crc_combine : ℕ → ℕ → Bytes → ℕ) where
    unfoldable pub append_nonempty : Bytes → ℕ → Fill → Exec Container Done
    append_nonempty name len fill = do
      plan ← check (preflight_append name len)
      delta ← write_stream (len + 1) fill len plan.write_off 0 []
      modify (λ c. record c {
        dir = insert name (extended crc_combine plan len delta) c.dir;
        tail = plan.write_end;
        staged = true;
      })

    unfoldable pub append_stream : Bytes → ℕ → Fill → Exec Container Done
    append_stream name len fill = do
      check ensure_writable
      if len == 0 then pure tt else append_nonempty name len fill
