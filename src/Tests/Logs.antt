-- ===== src/Tests/Logs.antt =====
-- A log of one tombstone and one batch, and its replay.
use turndb.Shared.{
  ℕ, ◌*◌, ◌^◌, ◌≤◌, ◌<◌, ◌≡◌, Result, ◌>>=◌, refl, ap, true, List, [], ◌∷◌, ◌++◌, map, length, take,
  All, Bytes, is_utf8, ok, arith,
}
use turndb.ReadLimits.{ReadLimits, default_limits, IsValid, validate, admit_wal_frames}
use turndb.Varint.{varint_small}
use turndb.Wal.Frame.{frame_bytes, header}
use turndb.Shared.Words.{to_le_bytes}
use turndb.Wal.Writer.{
  Wal, FramedRecord, append_batch, check_items, check_item, append_items, append_item, append_frame,
  push_frame, flush_before, flush_buf, admit_additional_frames,
}
use turndb.Wal.Replay.{Scanner, start, is_known, tomb_frame, finish, replay_file}
use turndb.Wal.Replay.Runs.{Runs, replay_file-Runs}
use turndb.Wal.Replay.Frames.{Physical, IsFit, log_bytes, log_size}
use turndb.Wal.Log.{
  Member, Entry, single, batch, physical_single, physical_member, marker, physical_log, physical_of,
  logical_frames, frames_of, committed, entries_bytes, IsEntry, IsMember,
}
use turndb.Wal.Log.Crash.{replay_file-take}
use turndb.Wal.Log.Append.{contents, IsBacked}
use turndb.Wal.Log.AppendItems.{frame_of, ItemTyped}
use turndb.Wal.Log.AppendBatch.{append_batch-contents}
use turndb.Tests.Samples.{toy, memory}

abbrev tomb : ℕ → ℕ → Member
tomb seq name = record {
  payload = name ∷ [];
  frame = record {
    tomb = true;
    seq = seq;
    entry = record { id = name ∷ []; contents = []; attrs = [] };
    novel = [];
  };
}

-- Three frames of 18 bytes and a marker of 18.
abbrev entries : List Entry
entries = single 1 (tomb 1 0x61) ∷ batch 2 (tomb 2 0x62 ∷ tomb 2 0x63 ∷ []) ∷ []

limits_IsValid : IsValid default_limits
limits_IsValid = record {
  stored = (omega arith, omega arith);
  decoded = (omega arith, omega arith);
  entries = (omega arith, omega arith);
  frames = (omega arith, omega arith);
  blocks = (omega arith, omega arith);
}

entries_IsEntry : All (IsEntry toy) entries
unfolding IsEntry IsMember tomb_frame is_utf8
entries_IsEntry = (refl, ((omega arith, omega arith, (refl, (refl, tt))), tt))

one_byte :
    (p : Physical)
    → is_known p.tag ≡ true
    → p.seq < 2 ^ 64
    → length p.payload ≡ 1
    → IsFit default_limits p
one_byte p known seq len = record {
  known = known;
  seq_fits = seq;
  len_fits = omega arith;
  stored = omega arith;
  decoded = omega arith;
}

entries_IsFit : All (IsFit default_limits) (physical_log entries)
unfolding is_known
entries_IsFit = (
  one_byte (physical_single 1 (tomb 1 0x61)) refl (omega arith) refl,
  (
    one_byte (physical_member 2 (tomb 2 0x62)) refl (omega arith) refl,
    (
      one_byte (physical_member 2 (tomb 2 0x63)) refl (omega arith) refl,
      (
        one_byte (marker 2 2) refl (omega arith)
            (ap (λ (b : Bytes). length b) (varint_small 2 (omega arith))),
        tt,
      ),
    ),
  ),
)

entries_size : log_size (physical_log entries) < 2 ^ 64
unfolding log_size
entries_size = omega (arith, ap (λ (b : Bytes). length b) (varint_small 2 (omega arith)))

-- The file ends in the marker's checksum: the batch is not there.
replay_file-take_example :
    replay_file toy default_limits (take 70 (entries_bytes toy entries))
    ≡ ok (record {
      frames = logical_frames (committed 70 entries);
      physical_frames = length (physical_log (committed 70 entries));
      valid_bytes = log_size (physical_log (committed 70 entries));
    })
replay_file-take_example =
    replay_file-take toy default_limits entries 70 limits_IsValid entries_IsEntry entries_IsFit
      (omega arith) entries_size

committed_70 : committed 70 entries ≡ single 1 (tomb 1 0x61) ∷ []
unfolding committed log_size
committed_70 = rw (varint_small 2 (omega arith)) refl

-- A log with one frame in the file and another one in the buffer.
abbrev writer : Wal
writer = record {
  file = 1 ∷ 2 ∷ 3 ∷ [];
  file_len = 2;
  buf = 9 ∷ [];
  read_limits = default_limits;
  frame_count = 2;
}

abbrev items : List FramedRecord
items =
    record {
      entry = record { id = 0x79 ∷ []; contents = []; attrs = [] };
      novel = [];
      tombstone = true;
    }
    ∷ []

items-ItemTyped : All ItemTyped items
unfolding is_utf8
items-ItemTyped = (
  (
    refl,
    record {
      id = (omega arith, refl);
      contents = (omega arith, tt);
      attrs = (omega arith, tt);
      pieces = (omega arith, tt);
    },
  ),
  tt,
)

-- The writer behind the batch.
abbrev appended : Wal
appended = record writer {
  buf =
      9 ∷ 0xd3 ∷ 3 ∷ 0 ∷ 0 ∷ 0 ∷ 0 ∷ 0 ∷ 0 ∷ 0 ∷ 1 ∷ 0 ∷ 0 ∷ 0 ∷ 121 ∷ 80 ∷ 1 ∷ 0 ∷ 0 ∷ 0xd2 ∷ 3 ∷ 0
      ∷ 0 ∷ 0 ∷ 0 ∷ 0 ∷ 0 ∷ 0 ∷ 1 ∷ 0 ∷ 0 ∷ 0 ∷ 1 ∷ 215 ∷ 0 ∷ 0 ∷ 0 ∷ [];
  frame_count = 4;
}

append_batch_done : append_batch memory toy 3 items writer ≡ (ok tt, appended)
unfolding append_batch check_items check_item append_items append_item append_frame push_frame
    flush_before flush_buf admit_additional_frames admit_wal_frames frame_bytes header to_le_bytes
append_batch_done = rw (varint_small 1 (omega arith)) refl

append_batch-contents_example :
    (ms : List Member) × (contents appended
      ≡ contents writer ++ log_bytes toy (physical_of (batch 3 ms)))
    × IsBacked appended
    × IsEntry toy (batch 3 ms)
    × (frames_of (batch 3 ms) ≡ map (frame_of 3) items)
append_batch-contents_example =
    append_batch-contents memory toy 3 items writer (omega arith) items-ItemTyped append_batch_done

-- The batch is torn in its marker.
abbrev torn : Bytes
torn = take 70 (entries_bytes toy entries)

replay_file-Runs_example :
    (n : ℕ) × (r : Result Scanner) × Runs toy default_limits n start torn r
    × (17 * n ≤ length torn)
    × (replay_file toy default_limits torn
        ≡ (validate default_limits >>= λ (_ : ReadLimits). r >>= λ s. ok (finish s)))
replay_file-Runs_example = replay_file-Runs toy default_limits torn
