-- ===== src/Wal/Log/Refused.antt =====
-- `append_frame` on its error paths: the frame of a call that failed has not entered the buffer.
use turndb.Shared.{
  ℕ, ◌+◌, ◌-◌, ◌^◌, ◌≡◌, refl, sym, ap, ◌⊎◌, inl, inr, Bool, true, false, not, ◌&&◌, ltb, leb,
  if◌then◌else◌, [], length, Bool-cases, Bytes, Error, Result, ok, err, bail_if, length_overflow,
  payload_too_long,
}
use turndb.Shared.Digests.{Digests}
use turndb.ReadLimits.{usize_max}
use turndb.Shared.Exec.{continue, continue-err}
use turndb.Wal.Writer.{
  Platform, Wal, overwrite, is_nil, buf_flush, after_write, flush_buf, flush_before, push_frame,
  admit_additional_frames, append_frame,
}
use turndb.Wal.Log.Append.{error_is_not_ok}

-- The buffer and the length of the file are what they were.
abbrev pub IsUntouched : Wal → Wal → Type 0
IsUntouched w w' = (w'.buf ≡ w.buf) × (w'.file_len ≡ w.file_len)

-- The buffer as it was has gone into the file, and is counted there.
abbrev pub IsFlushed : Wal → Wal → Type 0
IsFlushed w w' =
    (w'.buf ≡ [])
    × (w'.file_len ≡ w.file_len + length w.buf)
    × (w'.file ≡ overwrite w.file w.buf w.file_len)

-- What any outcome of a flush keeps: the count always, and buffer and length on an error. On
-- success there was nothing to flush, or all of it was.
abbrev Kept : Wal → Result (Unit {0}) × Wal → Type 0
Kept w (r, w') =
    (w'.frame_count ≡ w.frame_count)
    × ((e : Error) → r ≡ err e → IsUntouched w w')
    × (IsUntouched w w' ⊎ IsFlushed w w')

Kept-if :
    (w : Wal) (b : Bool) (x y : Result (Unit {0}) × Wal)
    → Kept w x
    → Kept w y
    → Kept w (if b then x else y)
Kept-if w true x y h k = h
Kept-if w false x y h k = k

module _ (fs : Platform) where
  after_write-Kept :
      (done : Bool) (file : Bytes) (w : Wal)
      → (done ≡ true → file ≡ overwrite w.file w.buf w.file_len)
      → Kept w (after_write fs done file w)
  unfolding after_write
  after_write-Kept false file w wrote = (refl, (λ e h. (refl, refl)), inl (refl, refl))
  after_write-Kept true file w wrote =
      Kept-if w (ltb usize_max (w.file_len + length w.buf)) _ _
        (refl, (λ e h. (refl, refl)), inl (refl, refl))
        (refl, (λ e h. absurd (error_is_not_ok (sym h))), inr (refl, refl, wrote refl))

  flush_before-Kept : (projected : ℕ) (w : Wal) → Kept w (flush_before fs projected w)
  unfolding flush_before flush_buf
  flush_before-Kept projected w =
      Kept-if w (not (is_nil w.buf) && leb buf_flush projected) _ _
        (Kept-if w (is_nil w.buf) _ _ (refl, (λ e h. (refl, refl)), inl (refl, refl))
          (after_write-Kept (fs.write_all_at w.file w.buf w.file_len).0
            (fs.write_all_at w.file w.buf w.file_len).1 w (fs.write_done w.file w.buf w.file_len)))
        (refl, (λ e h. (refl, refl)), inl (refl, refl))

  module _ (d : Digests) (tag seq : ℕ) (payload : Bytes) where
    -- The count was admitted and does not overflow, so a push that fails had no room.
    push_frame-counted :
        (v w : Wal) {e : Error} {w' : Wal} {u : Unit {0}}
        → admit_additional_frames 1 w ≡ ok u
        → v.frame_count ≡ w.frame_count
        → push_frame fs d tag seq payload v ≡ (err e, w')
        → v ≡ w'
    unfolding push_frame admit_additional_frames
    push_frame-counted v w {e} {w'} h same k =
        elim (Bool-cases (not (fs.try_reserve v.buf frame_len))) [
          | inl p ↦ ap (λ (r : Result (Unit {0}) × Wal). r.1) (rw p at k)
          | inr p ↦ absurd (
              error_is_not_ok (
                sym (
                  ap (λ (r : Result (Unit {0}) × Wal). r.0)
                    (rw (p, same, fits (Bool-cases (ltb usize_max (w.frame_count + 1)))) at k))))
        ]
      where
        frame_len : ℕ
        frame_len = 13 + length payload + 4

        fits :
            (ltb usize_max (w.frame_count + 1) ≡ true) ⊎ (ltb usize_max (w.frame_count + 1) ≡ false)
            → ltb usize_max (w.frame_count + 1) ≡ false
        fits (inl p) = absurd (error_is_not_ok (rw p at h))
        fits (inr p) = p

    -- A call that failed, for whatever reason, has not put its frame into the buffer and has not
    -- counted it: either the buffer and the counted length of the file are what they were, or the
    -- buffer as it was has been written whole behind the counted length of the file, is counted
    -- there, and the buffer is empty.
    pub append_frame-refused :
        (w : Wal) {e : Error} {w' : Wal}
        → append_frame fs d tag seq payload w ≡ (err e, w')
        → (w'.frame_count ≡ w.frame_count) × (IsUntouched w w' ⊎ IsFlushed w w')
    unfolding append_frame
    append_frame-refused w {e} {w'} h =
        elim (continue-err (bail_if (ltb (2 ^ 32 - 1) (length payload)) payload_too_long) _ w h) [
          | inl (_, s) ↦ untouched s
          | inr (_, _, h) ↦ elim (continue-err (admit_additional_frames 1 w) _ w h) [
            | inl (_, s) ↦ untouched s
            | inr (_, counted, h) ↦
                elim (continue-err (bail_if (ltb usize_max frame_len) length_overflow) _ w h) [
                  | inl (_, s) ↦ untouched s
                  | inr (_, _, h) ↦
                      elim (continue-err (bail_if (ltb usize_max projected) length_overflow) _ w
                        h) [ inl (_, s) ↦ untouched s | inr (_, _, h) ↦ behind_guards counted h ]
                ]
          ]
        ]
      where
        frame_len : ℕ
        frame_len = 13 + length payload + 4

        projected : ℕ
        projected = length w.buf + frame_len

        untouched :
            {v : Wal} → w ≡ v → (v.frame_count ≡ w.frame_count) × (IsUntouched w v ⊎ IsFlushed w v)
        untouched s = rw (← s) (refl, inl (refl, refl))

        flush : Result (Unit {0}) × Wal
        flush = flush_before fs projected w

        behind_guards :
            {u : Unit {0}}
            → admit_additional_frames 1 w ≡ ok u
            → continue flush.0 (λ _. push_frame fs d tag seq payload) flush.1 ≡ (err e, w')
            → (w'.frame_count ≡ w.frame_count) × (IsUntouched w w' ⊎ IsFlushed w w')
        behind_guards counted k =
            let (same, failed, either) = flush_before-Kept projected w in
            elim (continue-err flush.0 (λ _. push_frame fs d tag seq payload) flush.1 k) [
              | inl (f, s) ↦ rw (← s) (same, inl (failed e f))
              | inr (_, _, k) ↦ rw (← push_frame-counted flush.1 w counted same k) (same, either)
            ]
