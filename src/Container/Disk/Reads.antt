-- ===== src/Container/Disk/Reads.antt =====
-- Ranges of a file after a write.
use turndb.Shared.{
  ℕ, ◌+◌, ◌-◌, ◌≤◌, ◌<◌, ◌≡◌, refl, sym, ap, ◌∙◌, false, ltb, [], ◌∷◌, ◌++◌, length, length-append,
  length-take, length-drop, length-replicate, take, drop, replicate, take-append_eq, drop-append_eq,
  drop-append_more, drop_more, Bytes, ok, err, read_past_end, if◌then◌else◌, arith,
}
use turndb.Container.Disk.{reach, overwrite}
use turndb.Container.Directory.Decode.{read_exact_at}

pub length-reach : (file : Bytes) (off : ℕ) → off ≤ length (reach file off)
length-reach file off = omega (
  arith,
  length-append {0} file (replicate (off - length file) 0),
  length-replicate {A = ℕ} (off - length file) 0,
)

module _ (file : Bytes) (b : ℕ) (written : Bytes) (off : ℕ) where
  abbrev all : Bytes
  all = b ∷ written

  abbrev front : Bytes
  front = take off (reach file off)

  length-front : length front ≡ off
  length-front = length-take off (reach file off) (length-reach file off)

  pub length-overwrite : off + length all ≤ length (overwrite file all off)
  length-overwrite = omega (
    arith,
    length-append {0} front (all ++ drop (off + length all) file),
    length-append {0} all (drop (off + length all) file),
    length-front,
  )

  -- What was written is read back.
  pub read-overwrite : read_exact_at (overwrite file all off) (length all) off ≡ ok all
  unfolding read_exact_at
  read-overwrite =
      let whole : ltb (length (overwrite file all off)) (off + length all) ≡ false =
        ground (arith, length-overwrite) in
      rw
        (
          whole,
          drop-append_eq front (all ++ drop (off + length all) file) off length-front,
          take-append_eq all (drop (off + length all) file) (length all) refl,
        )
        refl

  abbrev back : Bytes
  back = drop (off + length all) file

  length-overwrite_inside :
      off + length all ≤ length file → length (overwrite file all off) ≡ length file
  length-overwrite_inside h = omega (
    arith,
    length-append {0} front (all ++ back),
    length-append {0} all back,
    length-front,
    length-drop {0} (off + length all) file,
  )

  drop-overwrite :
      (k : ℕ)
      → drop (off + length all + k) (overwrite file all off) ≡ drop (off + length all + k) file
  drop-overwrite k =
      let start : length front + (length all + k) ≡ off + length all + k =
        omega (arith, length-front) in
      ap (λ (n : ℕ). drop n (front ++ (all ++ back))) (sym start)
      ∙ drop-append_more front (all ++ back) (length all + k)
      ∙ drop-append_more all back k
      ∙ sym (drop_more (off + length all) k file)

  -- What stands behind it is as before.
  pub read-overwrite_behind :
      (len from : ℕ)
      → off + length all ≤ from
      → from + len ≤ length file
      → read_exact_at (overwrite file all off) len from ≡ read_exact_at file len from
  unfolding read_exact_at
  read-overwrite_behind len from behind inside =
      let at : off + length all + (from - (off + length all)) ≡ from = omega arith in
      let same : drop from (overwrite file all off) ≡ drop from file =
        ap (λ (n : ℕ). drop n (overwrite file all off)) (sym at)
        ∙ drop-overwrite (from - (off + length all))
        ∙ ap (λ (n : ℕ). drop n file) at in
      rw (length-overwrite_inside (omega arith)) (
        ap
          (λ (t : Bytes).
            if ltb (length file) (from + len) then err read_past_end else ok (take len t))
          same)

-- The same for any bytes that are not empty.
pub read-write :
    (file written : Bytes) (off : ℕ)
    → 0 < length written
    → read_exact_at (overwrite file written off) (length written) off ≡ ok written
read-write file [] off h = elim h [ ]
read-write file (b ∷ written) off h = read-overwrite file b written off

pub read-write_behind :
    (file written : Bytes) (off len from : ℕ)
    → off + length written ≤ from
    → from + len ≤ length file
    → read_exact_at (overwrite file written off) len from ≡ read_exact_at file len from
read-write_behind file [] off len from h k = refl
read-write_behind file (b ∷ written) off len from h k =
    read-overwrite_behind file b written off len from h k

pub length-write :
    (file written : Bytes) (off : ℕ)
    → 0 < length written
    → off + length written ≤ length (overwrite file written off)
length-write file [] off h = elim h [ ]
length-write file (b ∷ written) off h = length-overwrite file b written off
