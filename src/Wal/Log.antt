-- ===== src/Wal/Log.antt =====
-- The log of src/store/wal.rs as a list of entries: what its writer means a file to hold.
-- A standalone frame commits alone, and a batch commits with the marker behind its members.
pub mod Batch
pub mod Crash
pub mod Append
pub mod Durable
pub mod Refused
pub mod AppendItems
pub mod AppendSingle
pub mod AppendBatch
use turndb.Shared.{
  ℕ, suc, ◌+◌, ◌-◌, ◌^◌, ◌<◌, ◌≤◌, ◌≡◌, Bool, true, false, ltb, if◌then◌else◌, List, [], ◌∷◌, ◌++◌,
  map, length, All, Bytes, Result, ok,
}
use turndb.Shared.Digests.{Digests}
use turndb.Varint.{varint}
use turndb.Wal.Frame.{
  Frame, tomb_tag, batch_complete_tag, batch_tomb_tag, record_tag, batch_record_tag,
}
use turndb.Wal.Replay.{tomb_frame, record_frame}
use turndb.Wal.Replay.Frames.{Physical, log_size, log_bytes}

-- The payload of a frame and the frame that replay makes of it.
pub record Member : Type 0 where
  pub payload : Bytes
  pub frame : Frame

pub data Entry : Type 0 where
  single : ℕ → Member → Entry
  batch : ℕ → List Member → Entry

abbrev pub members_of : Entry → List Member
members_of (single seq m) = m ∷ []
members_of (batch seq ms) = ms

-- The frames that an entry commits, in order.
abbrev pub frames_of : Entry → List Frame
frames_of e = map (λ (m : Member). m.frame) (members_of e)

abbrev pub physical_single : ℕ → Member → Physical
physical_single seq m = record {
  tag = if m.frame.tomb then tomb_tag else record_tag;
  seq = seq;
  payload = m.payload;
}

abbrev pub physical_member : ℕ → Member → Physical
physical_member seq m = record {
  tag = if m.frame.tomb then batch_tomb_tag else batch_record_tag;
  seq = seq;
  payload = m.payload;
}

abbrev pub marker : ℕ → ℕ → Physical
marker seq n = record { tag = batch_complete_tag; seq = seq; payload = varint n }

abbrev pub physical_members : ℕ → List Member → List Physical
physical_members seq [] = []
physical_members seq (m ∷ ms) = physical_member seq m ∷ physical_members seq ms

abbrev pub physical_of : Entry → List Physical
physical_of (single seq m) = physical_single seq m ∷ []
physical_of (batch seq ms) = physical_members seq ms ++ marker seq (length ms) ∷ []

abbrev pub physical_log : List Entry → List Physical
physical_log [] = []
physical_log (e ∷ es) = physical_of e ++ physical_log es

abbrev pub logical_frames : List Entry → List Frame
logical_frames [] = []
logical_frames (e ∷ es) = frames_of e ++ logical_frames es

-- The entries whose bytes are all among the first `n`.
unfoldable pub committed : ℕ → List Entry → List Entry
committed n [] = []
committed n (e ∷ es) =
    let rest = committed (n - log_size (physical_of e)) es in
    if ltb n (log_size (physical_of e)) then [] else e ∷ rest

module _ (d : Digests) where
  -- The payload of a member decodes to its frame.
  unfoldable pub IsMember : ℕ → Member → Type 0
  IsMember seq m =
      (if m.frame.tomb then tomb_frame seq m.payload else record_frame d seq m.payload) ≡ ok m.frame

  unfoldable pub IsEntry : Entry → Type 0
  IsEntry (single seq m) = IsMember seq m
  IsEntry (batch seq ms) = (0 < length ms) × (length ms < 2 ^ 64) × All (IsMember seq) ms

  abbrev pub entries_bytes : List Entry → Bytes
  entries_bytes es = log_bytes d (physical_log es)
