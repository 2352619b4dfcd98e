-- ===== src/Wal/Writer.antt =====
-- The writing side of `Wal`: frames are appended to an owned buffer and flushed to the file.
use turndb.Shared.{
  ℕ, ◌+◌, ◌-◌, ◌^◌, ◌≡◌, ◌≤◌, Bool, true, false, not, ◌&&◌, ◌||◌, ltb, leb, if◌then◌else◌, List, [],
  ◌∷◌, ◌++◌, length, take, drop, Bytes, Result, ok, err, bail_if, payload_too_long, length_overflow,
  io_failure, allocation_failure, record_id_empty, empty_batch, tombstone_with_data,
}
use turndb.Shared.Digests.{Digests}
use turndb.ReadLimits.{ReadLimits, usize_max, admit_wal_frames}
use turndb.Types.{Record, is_empty_name}
use turndb.Varint.{varint}
use turndb.Wal.Codec.Payload.{encode_record, validate_record_for_wal}
use turndb.Shared.Exec.{Exec, pure, lift, ◌>>=◌, ◌>>◌}
use turndb.Wal.Frame.{
  tomb_tag, batch_complete_tag, batch_tomb_tag, record_tag, batch_record_tag, header_len, crc_len,
  frame_bytes,
}

-- `data` in place of what stands at `off`.
abbrev pub overwrite : Bytes → Bytes → ℕ → Bytes
overwrite file written off = take off file ++ (written ++ drop (off + length written) file)

-- The file operations of src/vfs.rs on one open file, with the file that they leave behind, and
-- whether `Vec::try_reserve` finds room behind a buffer. A failed write or truncation may leave
-- anything, and the code relies on success alone.
pub record Platform : Type 0 where
  pub write_all_at : Bytes → Bytes → ℕ → Bool × Bytes
  pub write_done :
      (file written : Bytes) (off : ℕ)
      → (write_all_at file written off).0 ≡ true
      → (write_all_at file written off).1 ≡ overwrite file written off
  pub set_len : Bytes → ℕ → Bool × Bytes
  pub set_len_done :
      (file : Bytes) (len : ℕ)
      → len ≤ length file
      → (set_len file len).0 ≡ true
      → (set_len file len).1 ≡ take len file
  pub sync_file : Bytes → Bool
  pub try_reserve : Bytes → ℕ → Bool

pub record Wal : Type 0 where
  pub file : Bytes
  pub file_len : ℕ
  pub buf : Bytes
  pub read_limits : ReadLimits
  pub frame_count : ℕ

-- `BUF_FLUSH`
abbrev pub buf_flush : ℕ
buf_flush = 2 ^ 20

abbrev Done : Type 0
Done = Unit {0}

-- A record with its novel pieces, and whether it is a tombstone.
pub record FramedRecord : Type 0 where
  pub entry : Record
  pub novel : List (Bytes × Bytes)
  pub tombstone : Bool

abbrev pub is_nil {ℓ} : {A : Type ℓ} → List A → Bool
is_nil [] = true
is_nil (x ∷ xs) = false

unfoldable pub admit_additional_frames : ℕ → Wal → Result (Unit {0})
admit_additional_frames additional w =
    if ltb usize_max (w.frame_count + additional)
    then err length_overflow
    else admit_wal_frames w.read_limits (w.frame_count + additional)

module _ (fs : Platform) where
  unfoldable pub after_write : Bool → Bytes → Wal → Result (Unit {0}) × Wal
  after_write false file w = (err io_failure, record w { file = file })
  after_write true file w =
      if ltb usize_max (w.file_len + length w.buf)
      then (err length_overflow, record w { file = file })
      else (ok tt, record w { file = file; file_len = w.file_len + length w.buf; buf = [] })

  unfoldable pub flush_buf : Exec Wal (Unit {0})
  unfolding after_write
  flush_buf w =
      let (done, file) = fs.write_all_at w.file w.buf w.file_len in
      if is_nil w.buf then (ok tt, w) else after_write done file w

  unfoldable pub sync : Exec Wal (Unit {0})
  sync = do flush_buf; λ w. if fs.sync_file w.file then (ok tt, w) else (err io_failure, w)

  unfoldable pub after_set_len : Bool → Bytes → Wal → Result (Unit {0}) × Wal
  after_set_len false file w = (err io_failure, record w { file = file; buf = [] })
  after_set_len true file w =
      let w' : Wal = record w { file = file; file_len = 0; buf = []; frame_count = 0 } in
      if fs.sync_file file then (ok tt, w') else (err io_failure, w')

  unfoldable pub truncate : Exec Wal (Unit {0})
  unfolding after_set_len
  truncate w = let (done, file) = fs.set_len w.file 0 in after_set_len done file w

  unfoldable pub flush_before : ℕ → Exec Wal (Unit {0})
  flush_before projected w =
      if not (is_nil w.buf) && leb buf_flush projected then flush_buf w else (ok tt, w)

  module _ (d : Digests) where
    -- Room for the frame is reserved, its bytes go behind the buffer, and it is counted.
    unfoldable pub push_frame : ℕ → ℕ → Bytes → Exec Wal (Unit {0})
    push_frame tag seq payload w =
        let pushed : Wal = record w { buf = w.buf ++ frame_bytes d tag seq payload } in
        if not (fs.try_reserve w.buf (header_len + length payload + crc_len))
        then (err allocation_failure, w)
        else if ltb usize_max (w.frame_count + 1)
        then (err length_overflow, pushed)
        else (ok tt, record pushed { frame_count = w.frame_count + 1 })

    unfoldable pub append_frame : ℕ → ℕ → Bytes → Exec Wal (Unit {0})
    unfolding push_frame flush_before
    append_frame tag seq payload = do
      lift (bail_if (ltb (2 ^ 32 - 1) (length payload)) payload_too_long)
      λ w. lift (admit_additional_frames 1 w) w
      let frame_len = header_len + length payload + crc_len
      lift (bail_if (ltb usize_max frame_len) length_overflow)
      λ w. lift (bail_if (ltb usize_max (length w.buf + frame_len)) length_overflow) w
      λ w. flush_before (length w.buf + frame_len) w
      push_frame tag seq payload

    unfoldable pub append_tomb : ℕ → Bytes → Exec Wal (Unit {0})
    append_tomb seq id = do
      lift (bail_if (is_empty_name id) record_id_empty)
      append_frame tomb_tag seq id

    unfoldable pub append : ℕ → Record → List (Bytes × Bytes) → Exec Wal (Unit {0})
    append seq r novel = do
      payload ← lift (encode_record d r novel)
      append_frame record_tag seq payload

    -- The checks that `append_batch` makes of every item before it appends one.
    unfoldable pub check_item : FramedRecord → Result (Unit {0})
    check_item i =
        if is_empty_name i.entry.id
        then err record_id_empty
        else if i.tombstone
        then bail_if
            (not (is_nil i.entry.contents) || not (is_nil i.entry.attrs) || not (is_nil i.novel))
            tombstone_with_data
        else validate_record_for_wal d i.entry i.novel

    unfoldable pub check_items : List FramedRecord → Exec Wal (Unit {0})
    check_items [] = pure tt
    check_items (i ∷ is) = do lift (check_item i); check_items is

    unfoldable pub append_item : ℕ → FramedRecord → Exec Wal (Unit {0})
    append_item seq i = if i.tombstone then append_frame batch_tomb_tag seq i.entry.id else (do
      payload ← lift (encode_record d i.entry i.novel)
      append_frame batch_record_tag seq payload)

    unfoldable pub append_items : ℕ → List FramedRecord → Exec Wal (Unit {0})
    append_items seq [] = pure tt
    append_items seq (i ∷ is) = do append_item seq i; append_items seq is

    unfoldable pub append_batch : ℕ → List FramedRecord → Exec Wal (Unit {0})
    append_batch seq items = do
      lift (bail_if (is_nil items) empty_batch)
      check_items items
      lift (bail_if (ltb usize_max (length items + 1)) length_overflow)
      λ w. lift (admit_additional_frames (length items + 1) w) w
      append_items seq items
      append_frame batch_complete_tag seq (varint (length items))
