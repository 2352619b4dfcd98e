-- ===== src/Wal/Log/AppendBatch.antt =====
-- `append_batch` against the log: a batch that was appended is one entry behind it.
use turndb.Shared.{
  ℕ, ◌+◌, ◌^◌, ◌<◌, ◌≡◌, sym, ap, subst, ◌∙◌, ltb, List, [], ◌∷◌, ◌++◌, map, append_assoc,
  append-nil, length, All, Bytes, Result, ok, arith, bail_if, empty_batch, length_overflow,
}
use turndb.Shared.Digests.{Digests}
use turndb.ReadLimits.{usize_max}
use turndb.Varint.{varint}
use turndb.Wal.Frame.{frame_bytes, batch_complete_tag}
use turndb.Shared.Exec.{continue-inv}
use turndb.Wal.Writer.{
  Platform, Wal, FramedRecord, is_nil, admit_additional_frames, check_item, check_items,
  append_items, append_batch,
}
use turndb.Wal.Replay.Frames.{log_bytes, log_bytes-append}
use turndb.Wal.Log.{Member, batch, physical_members, marker, physical_of, frames_of, IsEntry}
use turndb.Wal.Log.Append.{contents, IsBacked, same_state, append_frame-contents}
use turndb.Wal.Log.AppendItems.{frame_of, ItemTyped, Appended, append_items-contents}

module _ (fs : Platform) (d : Digests) (seq : ℕ) where
  -- The checks of all the items leave the log alone.
  check_items-All :
      (is : List FramedRecord) (w : Wal) {w' : Wal}
      → check_items fs d is w ≡ (ok tt, w')
      → (w ≡ w') × All (λ (i : FramedRecord). check_item fs d i ≡ ok tt) is
  unfolding check_items
  check_items-All [] w h = (same_state h, tt)
  check_items-All (i ∷ is) w h =
      let (u, e, k) = continue-inv (check_item fs d i) _ w h in
      let (same, checked) = check_items-All is w k in (same, (e, checked))

  ends_in_marker :
      (ms : List Member) (n : ℕ) (before : Bytes)
      → length ms ≡ n
      → (before ++ log_bytes d (physical_members seq ms))
          ++ frame_bytes d batch_complete_tag seq (varint n)
        ≡ before ++ log_bytes d (physical_of (batch seq ms))
  unfolding log_bytes
  ends_in_marker ms n before e = rw (← e) (
      append_assoc before (log_bytes d (physical_members seq ms)) last
      ∙ ap (λ (t : Bytes). before ++ (log_bytes d (physical_members seq ms) ++ t))
          (sym (append-nil last))
      ∙ ap (λ (t : Bytes). before ++ t)
          (sym (log_bytes-append d (physical_members seq ms) (marker seq (length ms) ∷ []))))
    where
      last : Bytes
      last = frame_bytes d batch_complete_tag seq (varint (length ms))

  counted_items : (is : List FramedRecord) → bail_if (is_nil is) empty_batch ≡ ok tt → 0 < length is
  counted_items [] h = cc
  counted_items (i ∷ is) h = omega arith

  fits_usize : (n : ℕ) → bail_if (ltb usize_max (n + 1)) length_overflow ≡ ok tt → n < 2 ^ 64
  fits_usize n h = ground arith

  -- A batch that `append_batch` reports as done stands behind the log as one well-formed entry
  -- that commits the frames of its items in order, and changes nothing before it. The file holds
  -- what the writer counts of it, and the items fit their Rust types.
  pub append_batch-contents :
      (is : List FramedRecord) (w : Wal) {w' : Wal}
      → IsBacked w
      → All ItemTyped is
      → append_batch fs d seq is w ≡ (ok tt, w')
      → (ms : List Member) × (contents w' ≡ contents w ++ log_bytes d (physical_of (batch seq ms)))
        × IsBacked w'
        × IsEntry d (batch seq ms)
        × (frames_of (batch seq ms) ≡ map (frame_of seq) is)
  unfolding append_batch Appended log_bytes IsEntry
  append_batch-contents is w b typed h =
      let (u, some_item, k) = continue-inv (bail_if (is_nil is) empty_batch) _ w h in
      let checked = check_items fs d is w in
      let (u, sound, k) = continue-inv checked.0 _ checked.1 k in
      let (unchanged, each) =
        check_items-All is w (ap (λ (r : Result (Unit {0})). (r, checked.1)) sound) in
      let (u, long, k) =
        continue-inv (bail_if (ltb usize_max (length is + 1)) length_overflow) _ checked.1 k in
      let (u, counted, k) =
        continue-inv (admit_additional_frames (length is + 1) checked.1) _ checked.1 k in
      let appended = append_items fs d seq is checked.1 in
      let (u, done, k) = continue-inv appended.0 _ appended.1 k in
      let (ms, members, backed, sounds, frames, count) =
        append_items-contents fs d seq is checked.1 (subst IsBacked unchanged b) typed each
          (ap (λ (r : Result (Unit {0})). (r, appended.1)) done) in
      let (marked, safe) =
        append_frame-contents fs d batch_complete_tag seq (varint (length is)) appended.1 backed
          k in
      (
        ms,
        marked
            ∙ ap (λ (t : Bytes). t ++ frame_bytes d batch_complete_tag seq (varint (length is)))
                (members
                  ∙ ap (λ (v : Wal). contents v ++ log_bytes d (physical_members seq ms))
                      (sym unchanged))
            ∙ ends_in_marker ms (length is) (contents w) count,
        safe,
        (
          omega (arith, count, counted_items is some_item),
          omega (arith, count, fits_usize (length is) long),
          sounds,
        ),
        frames,
      )
