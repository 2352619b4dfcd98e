-- ===== src/Wal/Replay.antt =====
-- `Wal::replay_state_with_limits`: the frames of a log file, up to the first torn one.
mod Parts
pub mod Rounds
pub mod Runs
pub mod Scan
pub mod Frames
use turndb.Shared.{
  ℕ, zero, suc, ◌+◌, ◌-◌, ◌^◌, Bool, true, false, not, ◌==◌, ◌||◌, ltb, if◌then◌else◌, List, [],
  ◌∷◌, ◌++◌, length, take, drop, min, Option, none, some, Bytes, is_utf8, Result, ok, err, Error,
  ◌>>=◌, ◌>>◌, bail_if, frame_checksum, unknown_tag, batch_count_malformed, batch_count_zero,
  batch_count_excess, batch_sequence, tombstone_id, length_overflow, trailing_bytes, not_utf8,
  out_of_fuel,
}
use turndb.Shared.Words.{from_le_bytes}
use turndb.Shared.Digests.{Digests}
use turndb.ReadLimits.{ReadLimits, usize_max, validate, admit, admit_wal_frames}
use turndb.Types.{Record, is_empty_name}
use turndb.Varint.{get_varint}
use turndb.Wal.Codec.Payload.{decode_record}
use turndb.Wal.Frame.{
  Frame, tomb_tag, batch_complete_tag, batch_tomb_tag, record_tag, batch_record_tag,
}

-- The variables of the loop. `pending` is the pen of batch members without their marker, and
-- `pending_start` the offset and the frame count where it began to fill.
pub record Scanner : Type 0 where
  pub out : List Frame
  pub pending : List Frame
  pub pending_start : Option (ℕ × ℕ)
  pub physical_frames : ℕ
  pub off : ℕ

pub record ReplayState : Type 0 where
  pub frames : List Frame
  pub physical_frames : ℕ
  pub valid_bytes : ℕ

unfoldable pub is_known : ℕ → Bool
is_known tag =
    tag == tomb_tag
    || tag == batch_complete_tag
    || tag == batch_tomb_tag
    || tag == record_tag
    || tag == batch_record_tag

unfoldable pub any_other_seq : ℕ → List Frame → Bool
any_other_seq seq [] = false
any_other_seq seq (f ∷ fs) = not (f.seq == seq) || any_other_seq seq fs

-- `.context(...)` on the member count.
malformed {ℓ} : {A : Type ℓ} → Result A → Result A
malformed (ok a) = ok a
malformed (err e) = err batch_count_malformed

-- A batch member goes into the pen, and a standalone frame discards the pen.
unfoldable pub pen : Frame → Scanner → Scanner
pen f s = record s {
  pending = s.pending ++ f ∷ [];
  pending_start = elim s.pending [ [] ↦ some (s.off, s.physical_frames) | _ ∷ _ ↦ s.pending_start ];
}

unfoldable pub commit_frame : Frame → Scanner → Scanner
commit_frame f s = record s { out = s.out ++ f ∷ []; pending = []; pending_start = none }

-- The marker completes exactly the members that it counts.
unfoldable pub complete_batch : ℕ → Bytes → Scanner → Result Scanner
unfolding malformed
complete_batch seq payload s = do
  (n, rest) ← malformed (get_varint payload)
  bail_if (not (is_empty_name rest)) trailing_bytes
  bail_if (n == 0) batch_count_zero
  bail_if (ltb (length s.pending) n) batch_count_excess
  let members = drop (length s.pending - n) s.pending
  bail_if (any_other_seq seq members) batch_sequence
  ok (record s { out = s.out ++ members; pending = []; pending_start = none })

unfoldable pub tomb_frame : ℕ → Bytes → Result Frame
tomb_frame seq payload = do
  bail_if (not (is_utf8 payload)) not_utf8
  bail_if (is_empty_name payload) tombstone_id
  ok (record {
    tomb = true;
    seq = seq;
    entry = record { id = payload; contents = []; attrs = [] };
    novel = [];
  })

abbrev pub start : Scanner
start = record { out = []; pending = []; pending_start = none; physical_frames = 0; off = 0 }

-- An uncommitted run at the end of the log is a batch that never completed.
unfoldable pub finish : Scanner → ReplayState
finish s = elim s.pending_start [
  | none ↦ record { frames = s.out; physical_frames = s.physical_frames; valid_bytes = s.off }
  | some (off, physical) ↦ record { frames = s.out; physical_frames = physical; valid_bytes = off }
]

module _ (d : Digests) where
  unfoldable pub record_frame : ℕ → Bytes → Result Frame
  record_frame seq payload = do
    (r, novel) ← decode_record d payload
    ok (record { tomb = false; seq = seq; entry = r; novel = novel })

  -- `match hdr[0] { ... }`
  unfoldable pub apply_frame : ℕ → ℕ → Bytes → Scanner → Result Scanner
  apply_frame tag seq payload s =
      if tag == batch_complete_tag
      then complete_batch seq payload s
      else if tag == tomb_tag
      then (do f ← tomb_frame seq payload; ok (commit_frame f s))
      else if tag == batch_tomb_tag
      then (do f ← tomb_frame seq payload; ok (pen f s))
      else if tag == record_tag
      then (do f ← record_frame seq payload; ok (commit_frame f s))
      else (do f ← record_frame seq payload; ok (pen f s))

  module _ (limits : ReadLimits) where
    -- A frame that passes its checksum.
    unfoldable pub accept_frame :
        ℕ → ℕ → ℕ → Bytes → Scanner → Bytes → Result (Option (Scanner × Bytes))
    accept_frame tag seq plen payload s later = do
      bail_if (not (is_known tag)) unknown_tag
      s' ← apply_frame tag seq payload s
      ok (
          some (
            record s' { physical_frames = s'.physical_frames + 1; off = s.off + 13 + plen + 4 },
            later,
          ))

    -- A frame whose bytes are all there. `none` ends the log.
    unfoldable pub scan_whole : ℕ → ℕ → ℕ → Scanner → Bytes → Result (Option (Scanner × Bytes))
    scan_whole tag seq plen s rest = do
      admit_wal_frames limits (min (s.physical_frames + 1) (2 ^ 64 - 1))
      admit limits plen plen
      let payload = take plen (drop 13 rest)
      let cb = take 4 (drop (13 + plen) rest)
      let later = drop (17 + plen) rest
      if d.crc32 (take (13 + plen) rest) == from_le_bytes cb
          then accept_frame tag seq plen payload s later
          else if is_empty_name later
          then ok none
          else err frame_checksum

    -- One round of the loop, on what stands at `off` and behind.
    unfoldable pub scan_frame : Scanner → Bytes → Result (Option (Scanner × Bytes))
    scan_frame s [] = ok none
    scan_frame s (tag ∷ fields) =
        let rest = tag ∷ fields in
        let seq = from_le_bytes (take 8 fields) in
        let plen = from_le_bytes (take 4 (drop 8 fields)) in
        if ltb (length rest) 17
        then ok none
        else if ltb usize_max (s.off + 13 + plen + 4)
        then err length_overflow
        else if ltb (length rest) (17 + plen)
        then ok none
        else scan_whole tag seq plen s rest

    unfoldable pub scan : ℕ → Scanner → Bytes → Result Scanner
    scan zero s rest = err out_of_fuel
    scan (suc fuel) s rest = do
      next ← scan_frame s rest
      elim next [ none ↦ ok s | some (s', rest') ↦ scan fuel s' rest' ]

    -- Every round but the last takes 17 bytes at least, so the file's length bounds the rounds.
    unfoldable pub replay_file : Bytes → Result ReplayState
    replay_file file = do
      _ ← validate limits
      s ← scan (suc (length file)) start file
      ok (finish s)

    -- A log that does not exist has no frames.
    unfoldable pub replay_state : Option Bytes → Result ReplayState
    replay_state none = do
      _ ← validate limits
      ok (record { frames = []; physical_frames = 0; valid_bytes = 0 })
    replay_state (some file) = replay_file file
