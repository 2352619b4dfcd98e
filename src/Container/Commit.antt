-- ===== src/Container/Commit.antt =====
-- src/container.rs: `commit`, which publishes what is staged as one state.
pub mod Files
mod Published
pub mod Prepare
pub mod Refines
use turndb.Shared.{
  ℕ, ◌+◌, ◌-◌, ◌*◌, ◌^◌, Bool, true, false, not, ◌==◌, ◌&&◌, ◌||◌, ltb, if◌then◌else◌, List, [],
  ◌∷◌, ◌++◌, length, Option, none, some, Bytes, Error, Result, ok, err, bail_if, length_overflow,
  io_failure, extents_over_ceiling, free_over_ceiling, members_over_ceiling, directory_over_ceiling,
}
use turndb.Shared.Digests.{Digests}
use turndb.Shared.Exec.{Exec, pure, lift, ◌>>=◌, ◌>>◌}
use turndb.Block.Codec
use turndb.Block.Codec.{Zstd}
use turndb.Container.Superblock.{Superblock, superblock_eq, slot_len, align_up, encode}
use turndb.Container.Disk.{Disk}
use turndb.Container.Directory.Encode.{
  max_free_extents, max_member_extents, Members, FreeExtent, encode_directory,
}
use turndb.Container.Superblock.{max_members, max_dir_stored}
use turndb.Container.State.{
  Container, ensure_writable, checked_add, next_seq, is_some, open_internal,
}
use turndb.Container.Staging.{Done, check, modify, write_out, discard_staged}

-- `self.dir.values().any(|member| member.extents.len() as u64 > MAX_MEMBER_EXTENTS)`
abbrev pub any_scattered : Members → Bool
any_scattered [] = false
any_scattered ((name, m) ∷ dir) = ltb max_member_extents (length m.extents) || any_scattered dir

-- The free extents of the next directory: the old directory joins them.
abbrev pub next_free_of : ℕ → Container → List FreeExtent
next_free_of seq c =
    if ltb 0 c.sb.dir_stored then c.free ++ (c.sb.dir_off, c.sb.dir_stored, seq) ∷ [] else c.free

-- `u32::try_from`
abbrev pub try_u32 : ℕ → Result ℕ
try_u32 n = if ltb (2 ^ 32 - 1) n then err length_overflow else ok n

-- The next directory in front of its write.
pub record Prepared : Type 0 where
  pub seq : ℕ
  pub next_free : List FreeExtent
  pub payload : Bytes
  pub codec : ℕ
  pub stored : Bytes
  pub dir_off : ℕ

abbrev bail : Bool → Error → Exec Container Done
bail test e = lift (bail_if test e)

module _ (z : Zstd) where
  unfoldable pub prepare : Exec Container Prepared
  prepare = do
    seq ← check next_seq
    λ c.
        (do
          bail (ltb max_members (length c.dir)) members_over_ceiling
          bail (any_scattered c.dir) extents_over_ceiling
          bail (ltb max_free_extents (length (next_free_of seq c))) free_over_ceiling
          payload ← lift (encode_directory c.dir (next_free_of seq c))
          (codec, stored) ← lift (Codec.encode z payload none 3)
          bail (ltb max_dir_stored (length stored)) directory_over_ceiling
          dir_off ← lift (align_up c.tail)
          pure (record {
            seq = seq;
            next_free = next_free_of seq c;
            payload = payload;
            codec = codec;
            stored = stored;
            dir_off = dir_off;
          }))
          c

module _ (disk : Disk) where
  unfoldable pub sync : Exec Container Done
  sync c = (if disk.sync_file c.file then ok tt else err io_failure, c)

  unfoldable pub acknowledge : Exec Container Done
  acknowledge = do sync; modify (λ c. record c { publication_acknowledged = true })

  unfoldable pub acknowledge_current_state : Exec Container Done
  acknowledge_current_state = do
    check ensure_writable
    λ c. if c.publication_acknowledged then (ok tt, c) else acknowledge c

  module _ (d : Digests) (z : Zstd) where
    abbrev pub adopt : Superblock → ℕ → Container → Result Container → Container
    adopt attempted attempted_slot c (err e) = c
    adopt attempted attempted_slot c (ok current) =
        let selected = current.slot == attempted_slot && superblock_eq current.sb attempted in
        record c {
          failed_publication_selected = some selected;
          dir = current.dir;
          free = current.free;
          sb = current.sb;
          tail = current.tail;
          slot = current.slot;
          staged = false;
          open_member = none;
          poisoned = not selected;
          publication_acknowledged = not selected;
        }

    unfoldable pub reconcile_after_publication_failure : Superblock → ℕ → Container → Container
    reconcile_after_publication_failure attempted attempted_slot c =
        let lost : Container = record c { poisoned = true; failed_publication_selected = none } in
        if disk.same_file
        then adopt attempted attempted_slot lost (open_internal d z c.f c.file c.read_limits)
        else lost

    abbrev pub published : Superblock → ℕ → Container → Container
    published sb next_slot c = record c {
      sb = sb;
      tail = sb.tail;
      slot = next_slot;
      staged = false;
      publication_acknowledged = true;
    }

    abbrev pub after_flip : Bool → Superblock → ℕ → Container → Result ℕ × Container
    after_flip true sb next_slot c = (ok sb.seq, published sb next_slot c)
    after_flip false sb next_slot c =
        (err io_failure, reconcile_after_publication_failure sb next_slot c)

    unfoldable pub flip : Superblock → Exec Container ℕ
    flip sb c =
        let next_slot = 1 - c.slot in
        let (done, file) = disk.write_all_at c.file (encode d sb) (next_slot * slot_len) in
        after_flip (done && disk.sync_file file) sb next_slot
          (record c { file = file; failed_publication_selected = none })

    unfoldable pub publish_prepared : Prepared → Exec Container ℕ
    publish_prepared p = do
      write_out disk p.stored p.dir_off
      tail ← lift (checked_add p.dir_off (length p.stored) length_overflow)
      dir_stored ← lift (try_u32 (length p.stored))
      dir_raw ← lift (try_u32 (length p.payload))
      n_entries ← check (λ c. try_u32 (length c.dir))
      sync
      sequence ← flip (record {
        seq = p.seq;
        dir_off = p.dir_off;
        dir_stored = dir_stored;
        dir_raw = dir_raw;
        n_entries = n_entries;
        dir_xsum = d.crc32 p.stored;
        tail = tail;
        dir_codec = p.codec;
      })
      modify (λ c. record c { free = p.next_free })
      pure sequence

    unfoldable pub commit_staged : Exec Container ℕ
    commit_staged = do p ← prepare z; publish_prepared p

    -- A failure in front of the flip takes the handle back to the committed directory.
    abbrev pub unwind : Container → Container
    unwind c = record (discard_staged d z c).1 { poisoned = true; publication_acknowledged = false }

    abbrev pub after_commit : Result ℕ → Container → Container
    after_commit (ok seq) c = c
    after_commit (err e) c = if is_some c.failed_publication_selected then c else unwind c

    abbrev pub publish : Exec Container ℕ
    publish c =
        let (result, c') = commit_staged (record c { failed_publication_selected = none }) in
        (result, after_commit result c')

    abbrev pub when_staged : Bool → Exec Container ℕ
    when_staged true = publish
    when_staged false = do acknowledge_current_state; λ c. (ok c.sb.seq, c)

    unfoldable pub commit : Exec Container ℕ
    commit = do check ensure_writable; λ c. when_staged c.staged c
