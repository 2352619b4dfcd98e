-- ===== src/Wal/Replay/Scan.antt =====
-- One round of the replay loop: on a whole frame, and on a frame that was cut off.
use native.Mathlib.Decide.{dec_lt}
use turndb.Shared.{
  ℕ, ◌+◌, ◌^◌, ◌≤◌, ◌<◌, ◌≡◌, refl, ap, ◌∙◌, true, ==_refl, [], ◌∷◌, ◌++◌, length, take, drop, none,
  some, Bytes, ok, arith, length-take_le,
}
use turndb.Shared.Words.{from_le_bytes}
use turndb.Shared.Digests.{Digests}
use turndb.ReadLimits.{ReadLimits, admit, admit_wal_frames}
use turndb.Wal.Frame.{frame_bytes}
use turndb.Wal.Replay.{Scanner, is_known, apply_frame, accept_frame, scan_whole, scan_frame}
use turndb.Wal.Replay.Parts
use turndb.Wal.Replay.Parts.{seq_field, len_field}

-- The scanner behind a frame, from the one that its contents were applied to.
abbrev pub advance : Scanner → ℕ → Scanner → Scanner
advance s plen s' = record s' {
  physical_frames = s'.physical_frames + 1;
  off = s.off + 13 + plen + 4;
}

-- What a frame has to satisfy to be admitted behind a scanner.
pub record IsAdmitted (limits : ReadLimits) (tag seq plen : ℕ) (s : Scanner) : Type 0 where
  pub known : is_known tag ≡ true
  pub seq_fits : seq < 2 ^ 64
  pub len_fits : plen < 2 ^ 32
  pub stored : plen ≤ limits.max_stored_frame_bytes
  pub decoded : plen ≤ limits.max_decoded_frame_bytes
  pub counted : s.physical_frames + 1 ≤ limits.max_wal_frames
  pub count_fits : limits.max_wal_frames < 2 ^ 64
  pub end_fits : s.off + plen + 17 < 2 ^ 64

module _ (d : Digests) (limits : ReadLimits) where
  scan_frame_enters :
      (s : Scanner) (tag seq plen : ℕ) (fields : Bytes)
      → from_le_bytes (take 8 fields) ≡ seq
      → from_le_bytes (take 4 (drop 8 fields)) ≡ plen
      → s.off + plen + 17 < 2 ^ 64
      → 17 + plen ≤ length (tag ∷ fields)
      → scan_frame d limits s (tag ∷ fields) ≡ scan_whole d limits tag seq plen s (tag ∷ fields)
  unfolding scan_frame
  scan_frame_enters s tag seq plen fields e f fits long = rw (e, f) (ground arith)

  module _ (tag seq : ℕ) (payload : Bytes) (s : Scanner)
      (a : IsAdmitted limits tag seq (length payload) s) where
    scan_whole_accepts :
        (more : Bytes) {s' : Scanner}
        → apply_frame d tag seq payload s ≡ ok s'
        → scan_whole d limits tag seq (length payload) s (Parts.rest d tag seq payload more)
          ≡ ok (some (advance s (length payload) s', more))
    unfolding scan_whole accept_frame admit admit_wal_frames
    scan_whole_accepts more h =
        rw
          (
            Parts.take-payload d tag seq payload more,
            Parts.take-covered d tag seq payload more,
            Parts.crc_field d tag seq payload more,
            Parts.drop-frame d tag seq payload more,
            ==_refl (d.crc32 (Parts.covered d tag seq payload more)),
            a.known,
            h,
          )
          (ground (arith, a.stored, a.decoded, a.counted, a.count_fits))

    -- A whole frame that can be applied is applied, and the round ends behind it.
    pub scan_frame-whole :
        (more : Bytes) {s' : Scanner}
        → apply_frame d tag seq payload s ≡ ok s'
        → scan_frame d limits s (frame_bytes d tag seq payload ++ more)
          ≡ ok (some (advance s (length payload) s', more))
    scan_frame-whole more {s'} h = entered ∙ scan_whole_accepts more h
      where
        entered :
            scan_frame d limits s (Parts.rest d tag seq payload more)
            ≡ scan_whole d limits tag seq (length payload) s (Parts.rest d tag seq payload more)
        entered = rw (Parts.rest-cons d tag seq payload more) (
            scan_frame_enters s tag seq (length payload) (Parts.fields d tag seq payload more)
              (seq_field d tag seq payload more a.seq_fits)
              (len_field d tag seq payload more a.len_fits) a.end_fits
              (omega (
                arith,
                Parts.length-whole d tag seq payload more,
                ap (λ (t : Bytes). length t) (Parts.rest-cons d tag seq payload more),
              )))

  -- A slice that is shorter than an empty frame ends the log.
  pub scan_frame_short :
      (s : Scanner) (rest : Bytes) → length rest < 17 → scan_frame d limits s rest ≡ ok none
  unfolding scan_frame
  scan_frame_short s [] h = refl
  scan_frame_short s (tag ∷ fields) h = ground arith

  -- So does one that is shorter than its own length field says.
  scan_frame_cut :
      (s : Scanner) (tag plen : ℕ) (fields : Bytes)
      → from_le_bytes (take 4 (drop 8 fields)) ≡ plen
      → s.off + plen + 17 < 2 ^ 64
      → length (tag ∷ fields) < 17 + plen
      → scan_frame d limits s (tag ∷ fields) ≡ ok none
  unfolding scan_frame
  scan_frame_cut s tag plen fields e fits short = rw e (ground arith)

  pub scan_frame_torn :
      (s : Scanner) (tag seq : ℕ) (payload : Bytes) (n : ℕ)
      → length payload < 2 ^ 32
      → s.off + length payload + 17 < 2 ^ 64
      → n < length payload + 17
      → scan_frame d limits s (take n (frame_bytes d tag seq payload)) ≡ ok none
  scan_frame_torn s tag seq payload n len fits cut = elim (dec_lt n 17) [
    | yes p ↦ scan_frame_short s (take n frame) (omega (arith, length-take_le n frame))
    | no p ↦ rw (Parts.cut_frame d tag seq payload n (omega arith)) (
        scan_frame_cut s tag (length payload) (Parts.cut_fields d tag seq payload n)
          (Parts.cut_len_field d tag seq payload n len) fits
          (omega (
            arith,
            length-take_le n frame,
            ap (λ (t : Bytes). length t) (Parts.cut_frame d tag seq payload n (omega arith)),
          )))
  ]
    where
      frame : Bytes
      frame = frame_bytes d tag seq payload
