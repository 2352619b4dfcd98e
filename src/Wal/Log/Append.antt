-- ===== src/Wal/Log/Append.antt =====
-- The writer against the log: what a successful append adds to the bytes that replay will read.
use turndb.Shared.{
  ℕ, ◌+◌, ◌-◌, ◌^◌, ◌≤◌, ◌≡◌, refl, sym, ap, ◌∙◌, Bool, true, false, not, ◌&&◌, ltb, leb,
  if◌then◌else◌, ◌++◌, append_assoc, append-nil, length, length-append, take, drop, take-append_eq,
  length-take, Bool-cases, inl, inr, Bytes, Error, Result, ok, err, arith, bail_if, length_overflow,
  allocation_failure, payload_too_long,
}
use turndb.Shared.Digests.{Digests}
use turndb.ReadLimits.{usize_max}
use turndb.Wal.Frame.{frame_bytes}
use turndb.Shared.Exec.{continue-inv}
use turndb.Wal.Writer.{
  Platform, Wal, after_write, push_frame, flush_before, overwrite, is_nil, buf_flush,
  admit_additional_frames, flush_buf, append_frame,
}

-- The bytes of the log: those of the file up to its length, and the buffered ones.
abbrev pub contents : Wal → Bytes
contents w = take w.file_len w.file ++ w.buf

abbrev pub IsBacked : Wal → Type 0
IsBacked w = w.file_len ≤ length w.file

abbrev pub outcome : Result (Unit {0}) → Wal → Result (Unit {0}) × Wal
outcome r w = (r, w)

pub error_is_not_ok : {e : Error} {u : Unit {0}} → ¬ (err e ≡ ok u)
error_is_not_ok h = cc

pub only_done :
    (b : Bool) (e : Error) (x : Wal) {y z : Wal}
    → (if b then outcome (err e) x else outcome (ok tt) y) ≡ (ok tt, z)
    → y ≡ z
only_done true e x h = absurd (error_is_not_ok (ap (λ (t : Result (Unit {0}) × Wal). t.0) h))
only_done false e x h = ap (λ (t : Result (Unit {0}) × Wal). t.1) h

-- Behind the reservation.
only_chosen :
    (b : Bool) (e : Error) (x : Wal) {z : Wal} {y : Result (Unit {0}) × Wal}
    → (if b then outcome (err e) x else y) ≡ (ok tt, z)
    → y ≡ (ok tt, z)
only_chosen true e x h = absurd (error_is_not_ok (ap (λ (t : Result (Unit {0}) × Wal). t.0) h))
only_chosen false e x h = h

pub same_state : {x y : Wal} {r q : Result (Unit {0})} → outcome r x ≡ (q, y) → x ≡ y
same_state h = ap (λ (t : Result (Unit {0}) × Wal). t.1) h

take-overwrite :
    (file written : Bytes) (off : ℕ)
    → off ≤ length file
    → take (off + length written) (overwrite file written off) ≡ take off file ++ written
take-overwrite file written off h =
    rw (sym (append_assoc (take off file) written (drop (off + length written) file))) (
      take-append_eq (take off file ++ written) (drop (off + length written) file)
        (off + length written)
        (omega (arith, length-append {0} (take off file) written, length-take off file h)))

length-overwrite :
    (file written : Bytes) (off : ℕ)
    → off ≤ length file
    → off + length written ≤ length (overwrite file written off)
length-overwrite file written off h = omega (
  arith,
  length-take off file h,
  length-append {0} (take off file) (written ++ drop (off + length written) file),
  length-append {0} written (drop (off + length written) file),
)

module _ (fs : Platform) where
  after_write-contents :
      (done : Bool) (file : Bytes) (w : Wal) {w' : Wal}
      → IsBacked w
      → (done ≡ true → file ≡ overwrite w.file w.buf w.file_len)
      → after_write fs done file w ≡ (ok tt, w')
      → (contents w' ≡ contents w) × IsBacked w'
  unfolding after_write
  after_write-contents false file w h wrote e = cc
  after_write-contents true file w h wrote e = rw (← only_done _ _ _ e) (
    rw (wrote refl) (append-nil _ ∙ take-overwrite w.file w.buf w.file_len h),
    rw (wrote refl) (length-overwrite w.file w.buf w.file_len h),
  )

  -- A flush moves bytes and keeps the log.
  pub flush_buf-contents :
      (w : Wal) {w' : Wal}
      → IsBacked w
      → flush_buf fs w ≡ (ok tt, w')
      → (contents w' ≡ contents w) × IsBacked w'
  unfolding flush_buf
  flush_buf-contents w h e = elim (Bool-cases (is_nil w.buf)) [
    | inl p ↦ rw (← same_state (rw p at e)) (refl, h)
    | inr p ↦
        after_write-contents (fs.write_all_at w.file w.buf w.file_len).0
          (fs.write_all_at w.file w.buf w.file_len).1 w h (fs.write_done w.file w.buf w.file_len)
          (rw p at e)
  ]

  flush_before-contents :
      (projected : ℕ) (w : Wal) {w' : Wal}
      → IsBacked w
      → flush_before fs projected w ≡ (ok tt, w')
      → (contents w' ≡ contents w) × IsBacked w'
  unfolding flush_before
  flush_before-contents projected w h e =
      elim (Bool-cases (not (is_nil w.buf) && leb buf_flush projected)) [
        | inl p ↦ flush_buf-contents w h (rw p at e)
        | inr p ↦ rw (← same_state (rw p at e)) (refl, h)
      ]

  module _ (d : Digests) (tag seq : ℕ) (payload : Bytes) where
    push_frame-contents :
        (w : Wal) {w' : Wal}
        → IsBacked w
        → push_frame fs d tag seq payload w ≡ (ok tt, w')
        → (contents w' ≡ contents w ++ frame_bytes d tag seq payload) × IsBacked w'
    unfolding push_frame
    push_frame-contents w h e =
        let full = not (fs.try_reserve w.buf (13 + length payload + 4)) in
        let e = only_chosen full allocation_failure w e in
        rw (← only_done (ltb usize_max (w.frame_count + 1)) length_overflow _ e)
          (sym (append_assoc (take w.file_len w.file) w.buf (frame_bytes d tag seq payload)), h)

    -- A frame that was appended stands behind the log as it was before.
    pub append_frame-contents :
        (w : Wal) {w' : Wal}
        → IsBacked w
        → append_frame fs d tag seq payload w ≡ (ok tt, w')
        → (contents w' ≡ contents w ++ frame_bytes d tag seq payload) × IsBacked w'
    unfolding append_frame
    append_frame-contents w h e =
        let frame_len = 13 + length payload + 4 in
        let (short, _, e) =
          continue-inv (bail_if (ltb (2 ^ 32 - 1) (length payload)) payload_too_long) _ w e in
        let (counted, _, e) = continue-inv (admit_additional_frames 1 w) _ w e in
        let (long, _, e) = continue-inv (bail_if (ltb usize_max frame_len) length_overflow) _ w e in
        let (room, _, e) =
          continue-inv (bail_if (ltb usize_max (length w.buf + frame_len)) length_overflow) _ w e in
        let flush = flush_before fs (length w.buf + frame_len) w in
        let (flushed, f, e) = continue-inv flush.0 _ flush.1 e in
        let (same, backed) =
          flush_before-contents (length w.buf + frame_len) w h
            (ap (λ (r : Result (Unit {0})). (r, flush.1)) f) in
        let (pushed, k) = push_frame-contents flush.1 backed e in
        (pushed ∙ ap (λ (t : Bytes). t ++ frame_bytes d tag seq payload) same, k)
