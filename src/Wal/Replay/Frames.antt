-- ===== src/Wal/Replay/Frames.antt =====
-- The replay loop on a log cut off at any byte: it applies the frames that are whole.
use native.Mathlib.Decide.{dec_lt}
use turndb.Shared.{
  ℕ, zero, suc, ◌+◌, ◌-◌, ◌^◌, ◌≤◌, ◌<◌, ◌≡◌, refl, sym, ap, ◌∙◌, true, ltb, List, [], ◌∷◌, ◌++◌,
  append_assoc, length, length-append, take, take-append_ge, take-append_le, All, Bytes, Result, ok,
  ◌>>=◌, >>=-eq-ok, if◌then◌else◌, arith,
}
use turndb.Shared.Digests.{Digests}
use turndb.ReadLimits.{ReadLimits}
use turndb.Wal.Frame.{frame_bytes, length-frame_bytes}
use turndb.Wal.Replay.{Scanner, is_known, apply_frame, commit_frame, pen, complete_batch}
use turndb.Wal.Replay.Rounds.{scan_all, scan_all-step, scan_all-end}
use turndb.Wal.Replay.Scan.{
  advance, IsAdmitted, scan_frame-whole, scan_frame_short, scan_frame_torn,
}

-- A frame as it stands in the file.
pub record Physical : Type 0 where
  pub tag : ℕ
  pub seq : ℕ
  pub payload : Bytes

-- What the writer and the limits admit of a single frame.
pub record IsFit (limits : ReadLimits) (p : Physical) : Type 0 where
  pub known : is_known p.tag ≡ true
  pub seq_fits : p.seq < 2 ^ 64
  pub len_fits : length p.payload < 2 ^ 32
  pub stored : length p.payload ≤ limits.max_stored_frame_bytes
  pub decoded : length p.payload ≤ limits.max_decoded_frame_bytes

abbrev pub frame_size : Physical → ℕ
frame_size p = length p.payload + 17

module _ (d : Digests) where
  abbrev pub physical_bytes : Physical → Bytes
  physical_bytes p = frame_bytes d p.tag p.seq p.payload

  unfoldable pub log_bytes : List Physical → Bytes
  log_bytes [] = []
  log_bytes (p ∷ ps) = physical_bytes p ++ log_bytes ps

  pub log_bytes-append :
      (ps qs : List Physical) → log_bytes (ps ++ qs) ≡ log_bytes ps ++ log_bytes qs
  unfolding log_bytes
  log_bytes-append [] qs = refl
  log_bytes-append (p ∷ ps) qs =
      ap (λ (t : Bytes). physical_bytes p ++ t) (log_bytes-append ps qs)
      ∙ sym (append_assoc (physical_bytes p) (log_bytes ps) (log_bytes qs))

  -- One frame after the other, without the bytes.
  unfoldable pub apply_frames : Scanner → List Physical → Result Scanner
  apply_frames s [] = ok s
  apply_frames s (p ∷ ps) = do
    s' ← apply_frame d p.tag p.seq p.payload s
    apply_frames
        (record s' {
          physical_frames = s'.physical_frames + 1;
          off = s.off + 13 + length p.payload + 4;
        })
        ps

-- The size of a list of frames, and those of them that are whole in the first `n` bytes.
unfoldable pub log_size : List Physical → ℕ
log_size [] = 0
log_size (p ∷ ps) = frame_size p + log_size ps

unfoldable pub whole : ℕ → List Physical → List Physical
whole n [] = []
whole n (p ∷ ps) =
    let rest = whole (n - frame_size p) ps in if ltb n (frame_size p) then [] else p ∷ rest

pub whole-cons :
    (n : ℕ) (p : Physical) (ps : List Physical)
    → ¬ (n < frame_size p)
    → whole n (p ∷ ps) ≡ p ∷ whole (n - frame_size p) ps
unfolding whole
whole-cons n p ps h = ground arith

pub log_size-append : (ps qs : List Physical) → log_size (ps ++ qs) ≡ log_size ps + log_size qs
unfolding log_size
log_size-append [] qs = omega arith
log_size-append (p ∷ ps) qs = omega (arith, log_size-append ps qs)

pub whole-append_ge :
    (n : ℕ) (ps qs : List Physical)
    → log_size ps ≤ n
    → whole n (ps ++ qs) ≡ ps ++ whole (n - log_size ps) qs
unfolding whole log_size
whole-append_ge n [] qs h = ap (λ (m : ℕ). whole m qs) (omega arith)
whole-append_ge n (p ∷ ps) qs h =
    let ih = whole-append_ge (n - frame_size p) ps qs (omega arith) in
    let e : n - frame_size p - log_size ps ≡ n - (frame_size p + log_size ps) = omega arith in
    ground (arith, ih ∙ ap (λ (m : ℕ). ps ++ whole m qs) e)

pub whole-append_lt :
    (n : ℕ) (ps qs : List Physical) → n < log_size ps → whole n (ps ++ qs) ≡ whole n ps
unfolding whole log_size
whole-append_lt n [] qs h = elim h [ ]
whole-append_lt n (p ∷ ps) qs h = elim (dec_lt n (frame_size p)) [
  | yes c ↦ ground arith
  | no c ↦ ground (arith, whole-append_lt (n - frame_size p) ps qs (omega arith))
]

module _ (d : Digests) where
  pub length-log_bytes : (ps : List Physical) → length (log_bytes d ps) ≡ log_size ps
  unfolding log_bytes log_size
  length-log_bytes [] = refl
  length-log_bytes (p ∷ ps) = omega (
    arith,
    length-append {0} (physical_bytes d p) (log_bytes d ps),
    length-log_bytes ps,
    length-frame_bytes d p.tag p.seq p.payload,
  )

  pub apply_frames-cons :
      (p : Physical) (ps : List Physical) (s : Scanner) {s' : Scanner}
      → apply_frame d p.tag p.seq p.payload s ≡ ok s'
      → apply_frames d s (p ∷ ps) ≡ apply_frames d (advance s (length p.payload) s') ps
  unfolding apply_frames
  apply_frames-cons p ps s h = rw h refl

  pub apply_frames-append :
      (ps qs : List Physical) (s : Scanner) {s' : Scanner}
      → apply_frames d s ps ≡ ok s'
      → apply_frames d s (ps ++ qs) ≡ apply_frames d s' qs
  unfolding apply_frames
  apply_frames-append [] qs s h = cc
  apply_frames-append (p ∷ ps) qs s h =
      let (t, e, k) = >>=-eq-ok (apply_frame d p.tag p.seq p.payload s) _ h in
      rw e (apply_frames-append ps qs (advance s (length p.payload) t) k)

  -- What a frame contains does not move the count.
  apply_frame-physical_frames :
      (tag seq : ℕ) (payload : Bytes) (s : Scanner) {s' : Scanner}
      → apply_frame d tag seq payload s ≡ ok s'
      → s'.physical_frames ≡ s.physical_frames
  unfolding apply_frame commit_frame pen complete_batch
  apply_frame-physical_frames tag seq payload s h = ground arith

take_of_nil {ℓ} : {A : Type ℓ} (n : ℕ) → take {A = A} n [] ≡ []
take_of_nil zero = refl
take_of_nil (suc n) = refl

module _ (d : Digests) (limits : ReadLimits) (count_fits : limits.max_wal_frames < 2 ^ 64) where
  pub scan_all-take :
      (ps : List Physical) (n : ℕ) (s : Scanner) {s' : Scanner}
      → All (IsFit limits) ps
      → s.physical_frames + length ps ≤ limits.max_wal_frames
      → s.off + log_size ps < 2 ^ 64
      → apply_frames d s (whole n ps) ≡ ok s'
      → scan_all d limits s (take n (log_bytes d ps)) ≡ ok s'
  unfolding log_bytes log_size whole apply_frames
  scan_all-take [] n s fit count fits h =
      rw take-nil (scan_all-end d limits s [] (scan_frame_short d limits s [] (omega arith)) ∙ h)
    where
      take-nil : take n (log_bytes d []) ≡ []
      take-nil = take_of_nil n
  scan_all-take (p ∷ ps) n s {s'} fit count fits h = elim (dec_lt n (frame_size p)) [
    | yes c ↦ rw (take-append_le (physical_bytes d p) (log_bytes d ps) n (omega (arith, size))) (
        scan_all-end d limits s (take n (physical_bytes d p)) (
          scan_frame_torn d limits s p.tag p.seq p.payload n fit.0.len_fits (omega arith)
            (omega arith))
        ∙ stop c h)
    | no c ↦
        step c (λ t. scan_all-take ps (n - frame_size p) t)
          (>>=-eq-ok (apply_frame d p.tag p.seq p.payload s) _ (onward c h))
  ]
    where
      size : length (physical_bytes d p) ≡ length p.payload + 17
      size = length-frame_bytes d p.tag p.seq p.payload

      admitted : IsAdmitted limits p.tag p.seq (length p.payload) s
      admitted = record {
        known = fit.0.known;
        seq_fits = fit.0.seq_fits;
        len_fits = fit.0.len_fits;
        stored = fit.0.stored;
        decoded = fit.0.decoded;
        counted = omega arith;
        count_fits = count_fits;
        end_fits = omega arith;
      }

      stop : n < frame_size p → apply_frames d s (whole n (p ∷ ps)) ≡ ok s' → ok s ≡ ok s'
      stop c h = ground arith

      onward :
          ¬ (n < frame_size p)
          → apply_frames d s (whole n (p ∷ ps)) ≡ ok s'
          → apply_frames d s (p ∷ whole (n - frame_size p) ps) ≡ ok s'
      onward c h = ground arith

      step :
          ¬ (n < frame_size p)
          → ((t : Scanner)
              → All (IsFit limits) ps
              → t.physical_frames + length ps ≤ limits.max_wal_frames
              → t.off + log_size ps < 2 ^ 64
              → apply_frames d t (whole (n - frame_size p) ps) ≡ ok s'
              → scan_all d limits t (take (n - frame_size p) (log_bytes d ps)) ≡ ok s')
          → (t : Scanner) × (apply_frame d p.tag p.seq p.payload s ≡ ok t)
            × (apply_frames d (advance s (length p.payload) t) (whole (n - frame_size p) ps)
                ≡ ok s')
          → scan_all d limits s (take n (physical_bytes d p ++ log_bytes d ps)) ≡ ok s'
      step c ih (t, e, k) =
          rw
            (
              take-append_ge (physical_bytes d p) (log_bytes d ps) n (omega (arith, size)),
              ap (λ (m : ℕ). physical_bytes d p ++ take (n - m) (log_bytes d ps)) size,
            )
            (scan_all-step d limits s
                (physical_bytes d p ++ take (n - frame_size p) (log_bytes d ps))
                (scan_frame-whole d limits p.tag p.seq p.payload s admitted
                  (take (n - frame_size p) (log_bytes d ps)) e)
              ∙ ih (advance s (length p.payload) t) fit.1
                  (omega (arith, apply_frame-physical_frames d p.tag p.seq p.payload s e))
                  (omega arith) k)
