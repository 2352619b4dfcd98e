-- ===== src/Container/Disk.antt =====
-- The file of a container, under the operations of src/vfs.rs.
pub mod Reads
use turndb.Shared.{
  ℕ, zero, suc, ◌+◌, ◌-◌, ◌≤◌, ◌≡◌, Bool, true, [], ◌∷◌, ◌++◌, length, take, drop, replicate, Bytes,
}

-- The file with `off` bytes at least: what a write leaves in front of it is zero.
abbrev pub reach : Bytes → ℕ → Bytes
reach file off = file ++ replicate (off - length file) 0

-- `written` at `off`, also behind the end of the file; an empty write does nothing.
abbrev pub overwrite : Bytes → Bytes → ℕ → Bytes
overwrite file [] off = file
overwrite file (b ∷ written) off =
    take off (reach file off) ++ ((b ∷ written) ++ drop (off + length (b ∷ written)) file)

-- A failed write may leave anything from its offset on, and never shortens the file. `same_file`
-- is the answer to whether the path still names the open file.
pub record Disk : Type 0 where
  pub write_all_at : Bytes → Bytes → ℕ → Bool × Bytes
  pub write_done :
      (file written : Bytes) (off : ℕ)
      → (write_all_at file written off).0 ≡ true
      → (write_all_at file written off).1 ≡ overwrite file written off
  pub write_keeps :
      (file written : Bytes) (off n : ℕ)
      → n ≤ off
      → n ≤ length file
      → take n (write_all_at file written off).1 ≡ take n file
  pub write_grows :
      (file written : Bytes) (off : ℕ) → length file ≤ length (write_all_at file written off).1
  pub sync_file : Bytes → Bool
  pub same_file : Bool
