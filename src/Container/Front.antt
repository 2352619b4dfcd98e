-- ===== src/Container/Front.antt =====
-- The part of a file that opening it reads: the bytes in front of the committed tail.
use turndb.Shared.{
  ℕ, zero, suc, ◌+◌, ◌-◌, ◌^◌, ◌≤◌, ◌≡◌, refl, sym, ap, ◌∙◌, false, not, ◌==◌, ◌&&◌, ◌||◌, ltb,
  Bool-cases, inl, inr, [], ◌∷◌, length, take, drop, Option, none, some, Bytes, bytes_eq, ok,
  bail_if, OnOk, >>=-OnOk, bail_if-OnOk, OnOk-ok, >>=-same, if-OnOk, arith, empty_declaration,
  directory_over_ceiling, directory_outside_region,
}
use turndb.Shared.Digests.{Digests}
use turndb.ReadLimits.{ReadLimits, admit, admit_directory_entries}
use turndb.Block.Codec.{Zstd}
use turndb.Container.Superblock.{
  Superblock, region_start, slot_len, is_empty_birth_superblock, validate_semantics, live, decode,
  decode_authentic, slice, magic, byte_at, container_draft_epoch, all_zero, sb_len, fields_of,
}
use turndb.Container.Publication.{live-inv}
use turndb.Container.Superblock.{max_dir_stored, max_members}
use turndb.Container.Directory.Decode.{
  Directory, read_exact_at, admit_declaration, read_published, read_directory,
}
use turndb.Container.Superblock.{max_dir_raw}
use turndb.Container.State.{selected_state}

pub take-take : (file : Bytes) (len n : ℕ) → len ≤ n → take len (take n file) ≡ take len file
take-take file zero n h = refl
take-take [] (suc len) zero h = refl
take-take [] (suc len) (suc n) h = refl
take-take (x ∷ file) (suc len) zero h = elim h [ ]
take-take (x ∷ file) (suc len) (suc n) h =
    ap (λ (t : Bytes). x ∷ t) (take-take file len n (omega arith))

-- A range in front of `n` lies in the first `n` bytes.
range-take :
    (file : Bytes) (n len off : ℕ)
    → off + len ≤ n
    → take len (drop off (take n file)) ≡ take len (drop off file)
range-take file n len zero h = take-take file len n (omega arith)
range-take file zero len (suc off) h = absurd (omega arith)
range-take [] (suc n) len (suc off) h = refl
range-take (x ∷ file) (suc n) len (suc off) h = range-take file n len off (omega arith)

-- Two files of at least `n` bytes with the same first `n`.
pub record Agree (n : ℕ) (a b : Bytes) : Type 0 where
  pub front : take n b ≡ take n a
  pub long : n ≤ length a
  pub long' : n ≤ length b

pub read_exact_at-Agree :
    {n : ℕ} {a b : Bytes} (len off : ℕ)
    → Agree n a b
    → off + len ≤ n
    → read_exact_at b len off ≡ read_exact_at a len off
unfolding read_exact_at
read_exact_at-Agree {n} {a} {b} len off g h =
    let fits_a : ltb (length a) (off + len) ≡ false = ground (arith, g.long) in
    let fits_b : ltb (length b) (off + len) ≡ false = ground (arith, g.long') in
    rw (fits_a, fits_b)
      (ap (λ (t : Bytes). ok t)
        (sym (range-take b n len off h)
          ∙ ap (λ (t : Bytes). take len (drop off t)) g.front
          ∙ range-take a n len off h))

validate-behind : (sb : Superblock) → validate_semantics sb ≡ ok tt → region_start ≤ sb.tail
unfolding validate_semantics is_empty_birth_superblock
validate-behind sb h = ground arith

module _ (d : Digests) (z : Zstd) where
  abbrev IsSound : Option Superblock → Type 0
  IsSound none = Unit {0}
  IsSound (some sb) = validate_semantics sb ≡ ok tt

  decode_authentic-IsSound : (slot : Bytes) → OnOk IsSound (decode_authentic d slot)
  unfolding decode_authentic
  decode_authentic-IsSound slot = bail_if-OnOk _ (not (bytes_eq (slice 0 8 slot) magic)) _ _ λ _.
      bail_if-OnOk _ (not (byte_at 49 slot == container_draft_epoch)) _ _ λ _.
        bail_if-OnOk _ (not (bytes_eq (slice 50 52 slot) (0 ∷ 0 ∷ []))) _ _ λ _.
          bail_if-OnOk _ (not (all_zero (drop sb_len slot))) _ _
            λ _. >>=-OnOk _ (validate_semantics (fields_of slot)) _ λ _ sound. sound

  decode-IsSound : (slot : Bytes) → OnOk IsSound (decode d slot)
  unfolding decode
  decode-IsSound slot = if-OnOk IsSound (ltb (length slot) sb_len) (ok none) _ tt (
      if-OnOk IsSound (not (bytes_eq (slice 52 56 slot) (take 4 (d.blake3 (slice 0 52 slot)))))
        (ok none) _ tt (decode_authentic-IsSound slot))

  pub live-behind :
      (a b : Bytes) {sb : Superblock} {k : ℕ} → live d (a, b) ≡ ok (sb, k) → region_start ≤ sb.tail
  live-behind a b {sb} h = elim (live-inv d a b h) [
    | inl (_, e) ↦ validate-behind sb (OnOk-ok IsSound _ (decode-IsSound a) e)
    | inr (_, e) ↦ validate-behind sb (OnOk-ok IsSound _ (decode-IsSound b) e)
  ]

  admitted-tail :
      (read_limits : ReadLimits) (sb : Superblock)
      → OnOk (λ _. sb.dir_off + sb.dir_stored ≡ sb.tail) (admit_declaration read_limits sb)
  unfolding admit_declaration
  admitted-tail read_limits sb =
      >>=-OnOk _ (bail_if (sb.n_entries == 0 && sb.dir_stored == 0) empty_declaration) _ λ _ _.
        >>=-OnOk _
          (bail_if
            (ltb max_dir_stored sb.dir_stored
              || ltb max_dir_raw sb.dir_raw
              || ltb max_members sb.n_entries)
            directory_over_ceiling)
          _
          λ _ _. >>=-OnOk _ (admit read_limits sb.dir_stored sb.dir_raw) _ λ _ _.
            >>=-OnOk _ (admit_directory_entries read_limits sb.n_entries) _ λ _ _.
              >>=-OnOk _
                (bail_if (ltb (2 ^ 64 - 1) (sb.dir_off + sb.dir_stored)) directory_outside_region) _
                λ _ _. ground arith

  pub read_directory-Agree :
      {a b : Bytes} (sb : Superblock) (read_limits : ReadLimits)
      → Agree sb.tail a b
      → read_directory d z b sb read_limits ≡ read_directory d z a sb read_limits
  unfolding read_directory read_published
  read_directory-Agree {a} {b} sb read_limits g = elim (Bool-cases (sb.seq == 0)) [
    | inl e ↦ rw e refl
    | inr e ↦ rw e (
        >>=-same (admit_declaration read_limits sb) _ _ λ _ admitted.
          let end =
            OnOk-ok (λ _. sb.dir_off + sb.dir_stored ≡ sb.tail) _ (admitted-tail read_limits sb)
              admitted in
          rw (read_exact_at-Agree sb.dir_stored sb.dir_off g (omega (arith, end))) refl)
  ]

  -- What the selected state of a file says of the file, and of those that agree with it.
  abbrev Selected : Bytes → ReadLimits → Superblock × ℕ × Directory → Type 0
  Selected file read_limits (sb, slot, directory) =
      (sb.tail ≤ length file)
      × ((other : Bytes)
          → take sb.tail other ≡ take sb.tail file
          → sb.tail ≤ length other
          → selected_state d z other read_limits ≡ ok (sb, slot, directory))

  selected_state-Selected :
      (file : Bytes) (read_limits : ReadLimits)
      → OnOk (Selected file read_limits) (selected_state d z file read_limits)
  unfolding selected_state
  selected_state-Selected file read_limits =
      bail_if-OnOk _ (ltb (length file) region_start) _ _ λ _.
        >>=-OnOk _ (read_exact_at file slot_len 0) _ λ a read_a.
          >>=-OnOk _ (read_exact_at file slot_len slot_len) _ λ b read_b.
            >>=-OnOk _ (live d (a, b)) _ λ (sb, slot) selected.
              bail_if-OnOk _ (ltb (length file) sb.tail) _ _ λ whole.
                >>=-OnOk _ (read_directory d z file sb read_limits) _ λ directory read.
                  let behind = live-behind a b selected in
                  let long : sb.tail ≤ length file = ground arith in
                  (
                    long,
                    λ other front long'.
                        let g : Agree sb.tail file other = record {
                          front = front;
                          long = long;
                          long' = long';
                        } in
                        let tall : ltb (length other) region_start ≡ false =
                          ground (arith, behind) in
                        let whole' : ltb (length other) sb.tail ≡ false = ground arith in
                        rw
                          (
                            tall,
                            read_exact_at-Agree slot_len 0 g (omega (arith, behind)) ∙ read_a,
                            read_exact_at-Agree slot_len slot_len g (omega (arith, behind))
                                ∙ read_b,
                            selected,
                            whole',
                            read_directory-Agree sb read_limits g ∙ read,
                          )
                          refl,
                  )

  -- The state that opening a file selects depends on the bytes in front of its tail only, and the
  -- file has them.
  pub selected_state-front :
      (file : Bytes) (read_limits : ReadLimits) {sb : Superblock} {slot : ℕ} {directory : Directory}
      → selected_state d z file read_limits ≡ ok (sb, slot, directory)
      → (sb.tail ≤ length file)
        × ((other : Bytes)
            → take sb.tail other ≡ take sb.tail file
            → sb.tail ≤ length other
            → selected_state d z other read_limits ≡ ok (sb, slot, directory))
  selected_state-front file read_limits h =
      OnOk-ok (Selected file read_limits) _ (selected_state-Selected file read_limits) h
