-- ===== src/ReadLimits.antt =====
-- src/read_limits.rs: the admission policy that bounds what a persisted length may allocate.
use turndb.Shared.{
  ℕ, ◌*◌, ◌-◌, ◌^◌, ◌≤◌, ◌≡◌, ◌↔◌, ◌==◌, ◌||◌, ltb, arith, Result, ok, ◌>>◌, bail_if,
  invalid_limits, stored_frame_too_large, decoded_frame_too_large, object_count_too_large,
}

pub record ReadLimits : Type 0 where
  pub max_stored_frame_bytes : ℕ
  pub max_decoded_frame_bytes : ℕ
  pub max_directory_entries : ℕ
  pub max_wal_frames : ℕ
  pub max_fold_blocks : ℕ

-- `ReadLimits::default()`: 512 << 20 bytes twice, then the three counts.
abbrev pub default_limits : ReadLimits
default_limits = record {
  max_stored_frame_bytes = 512 * 2 ^ 20;
  max_decoded_frame_bytes = 512 * 2 ^ 20;
  max_directory_entries = 100_000;
  max_wal_frames = 100_000;
  max_fold_blocks = 1_000_000;
}

-- `usize` is 64 bits wide.
abbrev pub usize_max : ℕ
usize_max = 2 ^ 64 - 1

unfoldable pub validate : ReadLimits → Result ReadLimits
validate l = do
  bail_if (l.max_stored_frame_bytes == 0) invalid_limits
  bail_if (l.max_decoded_frame_bytes == 0) invalid_limits
  bail_if (l.max_directory_entries == 0) invalid_limits
  bail_if (l.max_wal_frames == 0) invalid_limits
  bail_if (l.max_fold_blocks == 0) invalid_limits
  bail_if (ltb usize_max l.max_stored_frame_bytes) invalid_limits
  bail_if (ltb usize_max l.max_decoded_frame_bytes) invalid_limits
  bail_if (ltb usize_max l.max_directory_entries) invalid_limits
  bail_if (ltb usize_max l.max_wal_frames) invalid_limits
  bail_if (ltb usize_max l.max_fold_blocks || ltb (2 ^ 32 - 1) l.max_fold_blocks) invalid_limits
  ok l

unfoldable pub admit_stored : ReadLimits → ℕ → Result (Unit {0})
admit_stored l actual = bail_if (ltb l.max_stored_frame_bytes actual) stored_frame_too_large

unfoldable pub admit_decoded : ReadLimits → ℕ → Result (Unit {0})
admit_decoded l actual = bail_if (ltb l.max_decoded_frame_bytes actual) decoded_frame_too_large

unfoldable pub admit : ReadLimits → ℕ → ℕ → Result (Unit {0})
unfolding admit_stored admit_decoded
admit l stored decoded = do admit_stored l stored; admit_decoded l decoded

admit_objects : ℕ → ℕ → Result (Unit {0})
admit_objects actual allowed = bail_if (ltb allowed actual) object_count_too_large

unfoldable pub admit_directory_entries : ReadLimits → ℕ → Result (Unit {0})
unfolding admit_objects
admit_directory_entries l actual = admit_objects actual l.max_directory_entries

unfoldable pub admit_wal_frames : ReadLimits → ℕ → Result (Unit {0})
unfolding admit_objects
admit_wal_frames l actual = admit_objects actual l.max_wal_frames

unfoldable pub admit_fold_blocks : ReadLimits → ℕ → Result (Unit {0})
unfolding admit_objects
admit_fold_blocks l actual = admit_objects actual l.max_fold_blocks

pub record IsValid (l : ReadLimits) : Type 0 where
  pub stored : (1 ≤ l.max_stored_frame_bytes) × (l.max_stored_frame_bytes ≤ usize_max)
  pub decoded : (1 ≤ l.max_decoded_frame_bytes) × (l.max_decoded_frame_bytes ≤ usize_max)
  pub entries : (1 ≤ l.max_directory_entries) × (l.max_directory_entries ≤ usize_max)
  pub frames : (1 ≤ l.max_wal_frames) × (l.max_wal_frames ≤ usize_max)
  pub blocks : (1 ≤ l.max_fold_blocks) × (l.max_fold_blocks ≤ 2 ^ 32 - 1)

same : (l m : ReadLimits) → validate l ≡ ok m → l ≡ m
unfolding validate
same l m h = ground arith

pub validate-ok : (l : ReadLimits) → IsValid l → validate l ≡ ok l
unfolding validate
validate-ok l v = ground arith

pub validate-IsValid : (l m : ReadLimits) → validate l ≡ ok m → IsValid l
unfolding validate
validate-IsValid l m h = ground arith

-- `validate` accepts exactly the limits of which every one is positive and fits its width, and it
-- returns them unchanged.
pub validate_iff : (l m : ReadLimits) → (validate l ≡ ok m) ↔ ((l ≡ m) × IsValid l)
validate_iff l m = (λ h. (same l m h, validate-IsValid l m h), λ p. rw (← p.0) (validate-ok l p.1))
