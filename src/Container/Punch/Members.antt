-- ===== src/Container/Punch/Members.antt =====
-- What `punch_free_extents` leaves of the members.
use turndb.Shared.{
  ℕ, ◌+◌, ◌-◌, ◌≤◌, ◌<◌, ◌≡◌, refl, ◌∙◌, inl, inr, Bool-cases, leb, ltb, List, [], ◌∷◌, ◌++◌,
  length, All, All-append_right, Bytes, OnOk-of, arith,
}
use turndb.Shared.Exec.{pure, lift, Keeps, lift-Keeps, pure-Keeps, >>=-Keeps, if-Keeps}
use turndb.Container.Superblock.{align_up}
use turndb.Container.Align.{align_up-next}
use turndb.Container.Disk.{Disk}
use turndb.Container.Directory.Encode.{Extent, FreeExtent}
use turndb.Container.Directory.Ranges.{member_ranges, free_ranges, content_ranges}
use turndb.Container.Directory.WellFormed.{IsApart, AreApart}
use turndb.Container.Directory.Decode.{read_exact_at}
use turndb.Container.State.{Container}
use turndb.Container.Commit.{sync}
use turndb.Container.Punch.{
  Puncher, FreePunchStats, no_stats, is_recent, last_block, punch, punch_block, punch_old,
  punch_one, punch_each, punch_free_extents,
}

-- A file has the same bytes as another one in each of the ranges.
abbrev pub SameIn : Bytes → Bytes → List Extent → Type 0
SameIn a b = All (λ e. read_exact_at b e.1 e.0 ≡ read_exact_at a e.1 e.0)

abbrev AllApart : List Extent → Extent → Type 0
AllApart ms hole = All (λ e. IsApart e hole) ms

module _ (p : Puncher) (file : Bytes) (ms : List Extent) where
  abbrev Kept : Container → Type 0
  Kept c = (length c.file ≡ length file) × SameIn file c.file ms

  abbrev Any : {A : Type 0} → A → Type 0
  Any a = Unit {0}

  abbrev InFile : List Extent → Type 0
  InFile = All (λ e. e.0 + e.1 ≤ length file)

  module _ (inside : InFile ms) where
    punch-Keeps : (lo size : ℕ) → AllApart ms (lo, size) → Keeps Kept Any (punch p lo size)
    unfolding punch
    punch-Keeps lo size apart c k =
        ((p.punch_length c.file lo size ∙ k.0, same ms inside apart k.1), OnOk-of Any _ (λ _ _. tt))
      where
        same :
            (es : List Extent)
            → InFile es
            → AllApart es (lo, size)
            → SameIn file c.file es
            → SameIn file (p.punch_hole c.file lo size).1 es
        same [] i a s = tt
        same (e ∷ es) i a s = (
          p.punch_keeps c.file lo size e.0 e.1 a.0 (omega (arith, i.0, k.0)) ∙ s.0,
          same es i.1 a.1 s.1,
        )

    punch_block-Keeps :
        (lo hi : ℕ) (stats : FreePunchStats)
        → (lo < hi → AllApart ms (lo, hi - lo))
        → Keeps Kept Any (punch_block p lo hi stats)
    unfolding punch_block
    punch_block-Keeps lo hi stats apart c k = elim (Bool-cases (leb hi lo)) [
      | inl e ↦ rw e (k, tt)
      | inr e ↦ rw e (
          >>=-Keeps Kept Any Any (punch p lo (hi - lo)) _
            (punch-Keeps lo (hi - lo) (apart (ground arith))) (λ _ _ s i. (i, tt)) c k)
    ]

    inner-AllApart :
        (es : List Extent) (off len lo : ℕ)
        → off ≤ lo
        → lo < last_block off len
        → AllApart es (off, len)
        → AllApart es (lo, last_block off len - lo)
    inner-AllApart [] off len lo le lt a = tt
    inner-AllApart (e ∷ es) off len lo le lt a = (
      elim a.0 [ inl h ↦ inl (omega arith) | inr h ↦ inr (omega arith) ],
      inner-AllApart es off len lo le lt a.1,
    )

    punch_old-Keeps :
        (off len : ℕ) (stats : FreePunchStats)
        → AllApart ms (off, len)
        → Keeps Kept Any (punch_old p off len stats)
    unfolding punch_old
    punch_old-Keeps off len stats apart =
        >>=-Keeps Kept (λ lo. off ≤ lo) Any (lift (align_up off)) _
          (lift-Keeps Kept (λ lo. off ≤ lo) (align_up off)
            (OnOk-of (λ lo. off ≤ lo) _ λ lo e. (align_up-next off lo e).0))
          λ lo le.
            punch_block-Keeps lo (last_block off len) _
              (λ lt. inner-AllApart ms off len lo le lt apart)

    punch_one-Keeps :
        (grace : ℕ) (e : FreeExtent) (stats : FreePunchStats)
        → AllApart ms (e.0, e.1)
        → Keeps Kept Any (punch_one p grace e stats)
    unfolding punch_one
    punch_one-Keeps grace (off, len, freed_seq) stats apart c k =
        if-Keeps Kept Any (is_recent freed_seq grace c.sb.seq) _ _ (λ s i. (i, tt))
          (punch_old-Keeps off len _ apart) c k

    punch_each-Keeps :
        (grace : ℕ) (free : List FreeExtent) (stats : FreePunchStats)
        → All (AllApart ms) (free_ranges free)
        → Keeps Kept Any (punch_each p grace free stats)
    unfolding punch_each free_ranges
    punch_each-Keeps grace [] stats apart = pure-Keeps Kept Any stats tt
    punch_each-Keeps grace (e ∷ free) stats apart =
        >>=-Keeps Kept Any Any (punch_one p grace e stats) _ (punch_one-Keeps grace e stats apart.0)
          λ stats _. punch_each-Keeps grace free stats apart.1

  sync-Keeps : (disk : Disk) → Keeps Kept Any (sync disk)
  unfolding sync
  sync-Keeps disk c k = (k, OnOk-of Any _ (λ _ _. tt))

crossed : (xs ys : List Extent) → AreApart (xs ++ ys) → All (AllApart xs) ys
crossed [] ys h = all-nil ys
  where
    all-nil : (ys : List Extent) → All (AllApart []) ys
    all-nil [] = tt
    all-nil (y ∷ ys) = (tt, all-nil ys)
crossed (x ∷ xs) ys h = both ys (All-append_right (IsApart x) xs ys h.0) (crossed xs ys h.1)
  where
    both :
        (ys : List Extent) → All (IsApart x) ys → All (AllApart xs) ys → All (AllApart (x ∷ xs)) ys
    both [] h k = tt
    both (y ∷ ys) h k = ((h.0, k.0), both ys h.1 k.1)

-- Punching the free extents of a handle, whether it fails or not, leaves every byte of its members
-- as it was, when no range of its directory shares a byte with another and the members lie in the
-- file.
pub punch_free_extents-members :
    (p : Puncher) (disk : Disk) (grace : ℕ) (c : Container)
    → AreApart (content_ranges c.dir c.free)
    → All (λ e. e.0 + e.1 ≤ length c.file) (member_ranges c.dir)
    → SameIn c.file (punch_free_extents p disk grace c).1.file (member_ranges c.dir)
unfolding punch_free_extents sync
punch_free_extents-members p disk grace c apart inside =
    let ms = member_ranges c.dir in
    (>>=-Keeps (Kept p c.file ms) (Any p c.file ms) (Any p c.file ms)
      (punch_each p grace c.free no_stats) _
      (punch_each-Keeps p c.file ms inside grace c.free no_stats
        (crossed ms (free_ranges c.free) apart))
      (λ stats _.
        >>=-Keeps (Kept p c.file ms) (Any p c.file ms) (Any p c.file ms) _ _
          (if-Keeps (Kept p c.file ms) (Any p c.file ms) (ltb 0 stats.punched_extents) (sync disk)
            (pure tt) (sync-Keeps p c.file ms disk)
            (pure-Keeps (Kept p c.file ms) (Any p c.file ms) tt tt))
          (λ _ _. pure-Keeps (Kept p c.file ms) (Any p c.file ms) stats tt))
      c (refl, all-refl ms)).0.1
  where
    all-refl : (es : List Extent) → SameIn c.file c.file es
    all-refl [] = tt
    all-refl (e ∷ es) = (refl, all-refl es)
