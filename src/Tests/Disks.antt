-- ===== src/Tests/Disks.antt =====
-- Stand-ins for the zstd library and for a disk.
use turndb.Shared.{
  ℕ, zero, suc, ◌+◌, ◌-◌, ◌≤◌, ◌<◌, ◌≡◌, refl, sym, ap, ◌∙◌, Bool, true, Bool-cases, inl, inr,
  if◌then◌else◌, [], ◌∷◌, ◌++◌, length, length-append, length-take, length-drop, take,
  take-append_le, drop, replicate, Bytes, bytes_eq, bytes_eq→eq, Result, ok, arith,
}
use turndb.Block.Codec.{Zstd}
use turndb.Container.Disk.{Disk, reach, overwrite}
use turndb.Container.Disk.Reads.{length-reach}
use turndb.Container.Front.{take-take}

unfoldable pub is_zeros : Bytes → Bool
is_zeros raw = bytes_eq raw (replicate (length raw) 0)

unfoldable pub squeeze : Bytes → Bytes
unfolding is_zeros
squeeze raw = if is_zeros raw then 0 ∷ [] else 1 ∷ raw

unfoldable pub unsqueeze : Bytes → ℕ → Result Bytes
unsqueeze [] n = ok []
unsqueeze (zero ∷ payload) n = ok (replicate n 0)
unsqueeze (suc tag ∷ payload) n = ok payload

pub unsqueeze-squeeze : (raw : Bytes) → unsqueeze (squeeze raw) (length raw) ≡ ok raw
unfolding squeeze unsqueeze is_zeros
unsqueeze-squeeze raw = elim (Bool-cases (bytes_eq raw (replicate (length raw) 0))) [
  | inl e ↦ rw e (ap (λ (b : Bytes). ok b) (sym (bytes_eq→eq raw _ e)))
  | inr e ↦ rw e refl
]

pub squeeze-pos : (raw : Bytes) → 0 < length (squeeze raw)
unfolding squeeze is_zeros
squeeze-pos raw = elim (Bool-cases (bytes_eq raw (replicate (length raw) 0))) [
  | inl e ↦ rw e (omega arith)
  | inr e ↦ rw e (omega arith)
]

pub ok-inj : (x y : Bytes) → ok x ≡ ok y → x ≡ y
ok-inj x y e = cc

-- Zeros are one byte long.
abbrev pub small_zstd : Zstd
small_zstd = record {
  compress = λ raw dict level. ok (squeeze raw);
  decompress_into = λ payload dict n. unsqueeze payload n;
  compress-nonempty =
      λ raw dict level {payload} e. rw (← ok-inj (squeeze raw) payload e) (squeeze-pos raw);
  decompress-compress =
      λ raw dict level {payload} e. rw (← ok-inj (squeeze raw) payload e) (unsqueeze-squeeze raw);
}

pub overwrite-keeps :
    (file written : Bytes) (off n : ℕ)
    → n ≤ off
    → n ≤ length file
    → take n (overwrite file written off) ≡ take n file
overwrite-keeps file [] off n h k = refl
overwrite-keeps file (b ∷ written) off n h k =
    let long = length-take {0} off (reach file off) (length-reach file off) in
    take-append_le (take off (reach file off))
      ((b ∷ written) ++ drop (off + length (b ∷ written)) file) n (omega (arith, long))
    ∙ take-take (reach file off) n off h
    ∙ take-append_le file (replicate (off - length file) 0) n k

pub overwrite-grows :
    (file written : Bytes) (off : ℕ) → length file ≤ length (overwrite file written off)
overwrite-grows file [] off = omega arith
overwrite-grows file (b ∷ written) off = omega (
  arith,
  length-append {0} (take off (reach file off))
      ((b ∷ written) ++ drop (off + length (b ∷ written)) file),
  length-append {0} (b ∷ written) (drop (off + length (b ∷ written)) file),
  length-take {0} off (reach file off) (length-reach file off),
  length-drop {0} (off + length (b ∷ written)) file,
)

-- A disk in memory, on which every operation succeeds.
abbrev pub memory_disk : Disk
memory_disk = record {
  write_all_at = λ file written off. (true, overwrite file written off);
  write_done = λ file written off h. refl;
  write_keeps = overwrite-keeps;
  write_grows = overwrite-grows;
  sync_file = λ file. true;
  same_file = true;
}
