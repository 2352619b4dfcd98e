-- ===== src/Wal/Log/AppendSingle.antt =====
-- `append` and `append_tomb` against the log: one frame that commits alone.
use turndb.Shared.{
  ℕ, ◌≡◌, refl, sym, ap, ◌∙◌, true, false, List, [], ◌++◌, append-nil, Bytes, is_utf8, ok, bail_if,
  bail_if-eq-ok, record_id_empty,
}
use turndb.Shared.Digests.{Digests}
use turndb.Types.{Record, is_empty_name}
use turndb.Wal.Codec.ContentLaws.{IsTyped}
use turndb.Wal.Codec.Payload.{encode_record}
use turndb.Wal.Frame.{Frame, tomb_tag, record_tag, frame_bytes}
use turndb.Shared.Exec.{continue-inv}
use turndb.Wal.Writer.{Platform, Wal, FramedRecord, append_tomb, append}
use turndb.Wal.Replay.{tomb_frame}
use turndb.Wal.Replay.Frames.{log_bytes}
use turndb.Wal.Log.{Member, single, physical_of, IsMember, IsEntry}
use turndb.Wal.Log.Append.{contents, IsBacked, append_frame-contents}
use turndb.Wal.Log.AppendItems.{frame_of, record_item}

abbrev pub tomb_of : ℕ → Bytes → Frame
tomb_of seq id = record {
  tomb = true;
  seq = seq;
  entry = record { id = id; contents = []; attrs = [] };
  novel = [];
}

module _ (fs : Platform) (d : Digests) (seq : ℕ) (w : Wal) where
  -- A frame behind the log is an entry of its own.
  as_entry :
      (tag : ℕ) (payload : Bytes) {after : Bytes}
      → after ≡ contents w ++ frame_bytes d tag seq payload
      → after ≡ contents w ++ (frame_bytes d tag seq payload ++ [])
  as_entry tag payload same =
      same ∙ ap (λ (b : Bytes). contents w ++ b) (sym (append-nil (frame_bytes d tag seq payload)))

  -- A deletion that `append_tomb` reports as done stands behind the log as one entry, which commits
  -- the tombstone of its id. The file holds what the writer counts of it, and the id is UTF-8.
  pub append_tomb-contents :
      (id : Bytes) {w' : Wal}
      → IsBacked w
      → is_utf8 id ≡ true
      → append_tomb fs d seq id w ≡ (ok tt, w')
      → (m : Member) × (contents w' ≡ contents w ++ log_bytes d (physical_of (single seq m)))
        × IsBacked w'
        × IsEntry d (single seq m)
        × (m.frame ≡ tomb_of seq id)
  unfolding append_tomb log_bytes IsEntry IsMember tomb_frame
  append_tomb-contents id b utf8 h =
      let (u, some_id, k) = continue-inv (bail_if (is_empty_name id) record_id_empty) _ w h in
      let (same, backed) = append_frame-contents fs d tomb_tag seq id w b k in
      (
        record { payload = id; frame = tomb_of seq id },
        as_entry tomb_tag id same,
        backed,
        rw (utf8, bail_if-eq-ok (is_empty_name id) record_id_empty some_id) refl,
        refl,
      )

  -- A record that `append` reports as done stands behind the log as one entry, which commits the
  -- record with its contents in canonical order and its novel pieces. The file holds what the
  -- writer counts of it, and the record fits its Rust types.
  pub append-contents :
      (r : Record) (novel : List (Bytes × Bytes)) {w' : Wal}
      → IsBacked w
      → IsTyped r novel
      → append fs d seq r novel w ≡ (ok tt, w')
      → (m : Member) × (contents w' ≡ contents w ++ log_bytes d (physical_of (single seq m)))
        × IsBacked w'
        × IsEntry d (single seq m)
        × (m.frame ≡ frame_of seq (record { entry = r; novel = novel; tombstone = false }))
  unfolding append log_bytes IsEntry IsMember
  append-contents r novel b typed h =
      let (payload, encoded, k) = continue-inv (encode_record d r novel) _ w h in
      let (same, backed) = append_frame-contents fs d record_tag seq payload w b k in
      let i : FramedRecord = record { entry = r; novel = novel; tombstone = false } in
      (
        record { payload = payload; frame = frame_of seq i },
        as_entry record_tag payload same,
        backed,
        record_item fs d seq i refl typed encoded,
        refl,
      )
