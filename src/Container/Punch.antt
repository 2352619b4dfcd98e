-- ===== src/Container/Punch.antt =====
-- src/container.rs, `punch_free_extents`: the free extents given back to the file system.
pub mod Members
use turndb.Shared.{
  ℕ, ◌+◌, ◌-◌, ◌*◌, ◌/◌, ◌%◌, ◌^◌, ◌≤◌, ◌≡◌, ◌⊎◌, Bool, true, false, ltb, leb, min, max,
  if◌then◌else◌, List, [], ◌∷◌, length, Bytes, Result, ok, err, io_failure,
}
use turndb.Shared.Exec.{Exec, pure, lift, ◌>>=◌, ◌>>◌}
use turndb.Container.Superblock.{align, align_up}
use turndb.Container.Disk.{Disk}
use turndb.Container.Directory.Encode.{FreeExtent}
use turndb.Container.Directory.Decode.{read_exact_at}
use turndb.Container.State.{Container}
use turndb.Container.Staging.{Done}
use turndb.Container.Commit.{sync}

-- `punch_hole` of src/vfs.rs: whether it succeeded, and the file. It leaves the length alone, and
-- every range of the file that it was not asked to deallocate.
pub record Puncher : Type 0 where
  pub punch_hole : Bytes → ℕ → ℕ → Bool × Bytes
  pub punch_length : (file : Bytes) (off len : ℕ) → length (punch_hole file off len).1 ≡ length file
  pub punch_keeps :
      (file : Bytes) (off len from size : ℕ)
      → (from + size ≤ off) ⊎ (off + len ≤ from)
      → from + size ≤ length file
      → read_exact_at (punch_hole file off len).1 size from ≡ read_exact_at file size from

pub record FreePunchStats : Type 0 where
  pub examined : ℕ
  pub punched_extents : ℕ
  pub punched_bytes : ℕ
  pub deferred_extents : ℕ
  pub edge_bytes : ℕ

abbrev pub no_stats : FreePunchStats
no_stats = record {
  examined = 0;
  punched_extents = 0;
  punched_bytes = 0;
  deferred_extents = 0;
  edge_bytes = 0;
}

-- `freed_seq.saturating_add(grace) > self.sb.seq`
abbrev pub is_recent : ℕ → ℕ → ℕ → Bool
is_recent freed_seq grace seq = ltb seq (min (freed_seq + grace) (2 ^ 64 - 1))

-- `off + len`, which wraps around, as do the sums of the statistics, in a release build.
abbrev pub extent_end : ℕ → ℕ → ℕ
extent_end off len = (off + len) % 2 ^ 64

-- The end of the last whole block of an extent.
abbrev pub last_block : ℕ → ℕ → ℕ
last_block off len = extent_end off len / align * align

module _ (p : Puncher) where
  unfoldable pub punch : ℕ → ℕ → Exec Container Done
  punch lo size c =
      let (done, file) = p.punch_hole c.file lo size in
      (if done then ok tt else err io_failure, record c { file = file })

  unfoldable pub punch_block : ℕ → ℕ → FreePunchStats → Exec Container FreePunchStats
  punch_block lo hi stats =
      if leb hi lo
      then pure stats
      else punch lo (hi - lo)
        >> pure (record stats {
          punched_extents = stats.punched_extents + 1;
          punched_bytes = (stats.punched_bytes + (hi - lo)) % 2 ^ 64;
        })

  -- One extent that is old enough.
  unfoldable pub punch_old : ℕ → ℕ → FreePunchStats → Exec Container FreePunchStats
  punch_old off len stats = do
    lo ← lift (align_up off)
    let hi = last_block off len
    punch_block lo hi (record stats {
      edge_bytes =
          (stats.edge_bytes + (min (lo - off) len + (extent_end off len - max hi lo))) % 2 ^ 64;
    })

  unfoldable pub punch_one : ℕ → FreeExtent → FreePunchStats → Exec Container FreePunchStats
  punch_one grace (off, len, freed_seq) stats c =
      (if is_recent freed_seq grace c.sb.seq
          then pure (record stats {
            examined = stats.examined + 1;
            deferred_extents = stats.deferred_extents + 1;
          })
          else punch_old off len (record stats { examined = stats.examined + 1 }))
        c

  -- `for &(off, len, freed_seq) in &self.free`
  unfoldable pub punch_each : ℕ → List FreeExtent → FreePunchStats → Exec Container FreePunchStats
  punch_each grace [] stats = pure stats
  punch_each grace (e ∷ free) stats = do
    stats ← punch_one grace e stats
    punch_each grace free stats

  -- The file is synchronized when a hole was punched.
  unfoldable pub punch_free_extents : Disk → ℕ → Exec Container FreePunchStats
  punch_free_extents disk grace c =
      (do
        stats ← punch_each grace c.free no_stats
        if ltb 0 stats.punched_extents then sync disk else pure tt
        pure stats)
        c
