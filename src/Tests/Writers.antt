-- ===== src/Tests/Writers.antt =====
-- The writer of the log: an acknowledged frame, and one that is refused.
use turndb.Shared.{
  ℕ, ◌^◌, ◌<◌, ◌≡◌, ◌⊎◌, refl, false, true, List, [], ◌∷◌, length, take, All, is_utf8, ok, err,
  arith, Bytes, replicate, length-replicate, allocation_failure,
}
use turndb.Shared.Words.{to_le_bytes}
use turndb.ReadLimits.{default_limits, IsValid, admit_wal_frames}
use turndb.Wal.Frame.{frame_bytes, header}
use turndb.Wal.Writer.{
  Platform, Wal, sync, flush_buf, after_write, append_frame, push_frame, flush_before,
  admit_additional_frames,
}
use turndb.Wal.Replay.{is_known, tomb_frame, replay_file}
use turndb.Wal.Replay.Frames.{IsFit, log_bytes, log_size}
use turndb.Wal.Log.{
  Member, Entry, single, physical_log, logical_frames, entries_bytes, IsEntry, IsMember,
}
use turndb.Wal.Log.Durable.{sync-replay}
use turndb.Wal.Log.Refused.{IsUntouched, IsFlushed, append_frame-refused}
use turndb.Tests.Samples.{toy, memory}

abbrev deletion : Member
deletion = record {
  payload = 0x61 ∷ [];
  frame = record {
    tomb = true;
    seq = 1;
    entry = record { id = 0x61 ∷ []; contents = []; attrs = [] };
    novel = [];
  };
}

abbrev entries : List Entry
entries = single 1 deletion ∷ []

abbrev buffered : Wal
buffered = record {
  file = [];
  file_len = 0;
  buf = entries_bytes toy entries;
  read_limits = default_limits;
  frame_count = 1;
}

abbrev synced : Wal
synced = record buffered { file = entries_bytes toy entries; file_len = 18; buf = [] }

sync_done : sync memory buffered ≡ (ok tt, synced)
unfolding sync flush_buf after_write log_bytes frame_bytes header to_le_bytes
sync_done = refl

limits-IsValid : IsValid default_limits
limits-IsValid = record {
  stored = (omega arith, omega arith);
  decoded = (omega arith, omega arith);
  entries = (omega arith, omega arith);
  frames = (omega arith, omega arith);
  blocks = (omega arith, omega arith);
}

entries-IsEntry : All (IsEntry toy) entries
unfolding IsEntry IsMember tomb_frame is_utf8
entries-IsEntry = (refl, tt)

entries-IsFit : All (IsFit default_limits) (physical_log entries)
unfolding is_known
entries-IsFit = (
  record {
    known = refl;
    seq_fits = omega arith;
    len_fits = omega arith;
    stored = omega arith;
    decoded = omega arith;
  },
  tt,
)

entries-log_size : log_size (physical_log entries) < 2 ^ 64
unfolding log_size
entries-log_size = omega arith

sync-replay_example :
    replay_file toy default_limits (take synced.file_len synced.file)
    ≡ ok (record {
      frames = logical_frames entries;
      physical_frames = length (physical_log entries);
      valid_bytes = log_size (physical_log entries);
    })
sync-replay_example =
    sync-replay memory toy default_limits entries buffered limits-IsValid entries-IsEntry
      entries-IsFit (omega arith) entries-log_size (omega arith) refl sync_done

-- The same with no room for another frame.
abbrev cramped : Platform
cramped = record memory { try_reserve = λ buf additional. false }

-- The frame is too long for the buffer, which is flushed, and then there is no room for it.
large_refuses :
    (payload : Bytes)
    → length payload ≡ 2 ^ 20
    → append_frame cramped toy 0xd1 2 payload buffered ≡ (err allocation_failure, synced)
unfolding append_frame admit_additional_frames admit_wal_frames push_frame flush_before flush_buf
    after_write log_bytes frame_bytes header to_le_bytes
large_refuses payload long = rw long refl

abbrev large : Bytes
large = replicate (2 ^ 20) 0

append_frame-refused_example :
    (synced.frame_count ≡ buffered.frame_count)
    × (IsUntouched buffered synced ⊎ IsFlushed buffered synced)
append_frame-refused_example =
    append_frame-refused cramped toy 0xd1 2 large buffered
      (large_refuses large (length-replicate {A = ℕ} (2 ^ 20) 0))
