-- ===== src/Container/Align.antt =====
-- `align_up`: where the next extent of a container may start.
use turndb.Shared.{ℕ, ◌+◌, ◌-◌, ◌*◌, ◌/◌, ◌%◌, ◌<◌, ◌≤◌, ◌≡◌, ok, arith}
use turndb.Container.Superblock.{align, align_up}

rounded : (x y : ℕ) → align_up x ≡ ok y → y ≡ (x + (align - 1)) / align * align
unfolding align_up
rounded x y h = ground arith

multiple : (q : ℕ) → q * align % align ≡ 0
multiple q = omega arith

-- The result of `align_up` is the first multiple of `align` that is not below the offset.
pub align_up-next : (x y : ℕ) → align_up x ≡ ok y → (x ≤ y) × (y < x + align) × (y % align ≡ 0)
unfolding align_up
align_up-next x y h =
    (ground arith, ground arith, rw (rounded x y h) (multiple ((x + (align - 1)) / align)))
