-- ===== src/Wal/Log/AppendItems.antt =====
-- The members of a batch that `append_batch` appends, against the log.
use turndb.Shared.{
  ℕ, suc, ◌≡◌, refl, sym, ap, ap₂, subst, ◌∙◌, true, false, not, ◌||◌, List, [], ◌∷◌, ◌++◌, map,
  append_assoc, append-nil, length, All, Bool-cases, inl, inr, Bytes, is_utf8, Result, ok, arith,
  bail_if, tombstone_with_data,
}
use turndb.Shared.Digests.{Digests}
use turndb.Types.{sort_contents, is_empty_name}
use turndb.Wal.Codec.ContentLaws.{IsTyped}
use turndb.Wal.Codec.RoundTrip.{decode-encode_record}
use turndb.Wal.Codec.Payload.{encode_record}
use turndb.Wal.Frame.{Frame, batch_tomb_tag, batch_record_tag}
use turndb.Shared.Exec.{continue-inv}
use turndb.Wal.Writer.{Platform, Wal, FramedRecord, is_nil, check_item, append_item, append_items}
use turndb.Wal.Replay.{tomb_frame, record_frame}
use turndb.Wal.Replay.Frames.{physical_bytes, log_bytes}
use turndb.Wal.Log.{Member, physical_member, physical_members, IsMember}
use turndb.Wal.Log.Append.{contents, IsBacked, same_state, append_frame-contents}

-- The frame that replay is to give back for an item: its contents in canonical order.
abbrev pub frame_of : ℕ → FramedRecord → Frame
frame_of seq i = record {
  tomb = i.tombstone;
  seq = seq;
  entry = record i.entry { contents = sort_contents i.entry.contents };
  novel = i.novel;
}

-- What Rust's types say of an item.
abbrev pub ItemTyped : FramedRecord → Type 0
ItemTyped i = (is_utf8 i.entry.id ≡ true) × IsTyped i.entry i.novel

is_nil→eq {ℓ} : {A : Type ℓ} (xs : List A) → is_nil xs ≡ true → xs ≡ []
is_nil→eq [] h = refl
is_nil→eq (x ∷ xs) h = cc

nothing_else :
    (i : FramedRecord)
    → bail_if
        (not (is_nil i.entry.contents) || not (is_nil i.entry.attrs) || not (is_nil i.novel))
        tombstone_with_data
      ≡ ok tt
    → (i.entry.contents ≡ []) × (i.entry.attrs ≡ []) × (i.novel ≡ [])
nothing_else i h = (
  is_nil→eq i.entry.contents (ground arith),
  is_nil→eq i.entry.attrs (ground arith),
  is_nil→eq i.novel (ground arith),
)

sort-nil : sort_contents [] ≡ []
unfolding sort_contents
sort-nil = refl

checked_tomb :
    (fs : Platform) (d : Digests) (i : FramedRecord)
    → i.tombstone ≡ true
    → check_item fs d i ≡ ok tt
    → (is_empty_name i.entry.id ≡ false)
      × (bail_if
            (not (is_nil i.entry.contents) || not (is_nil i.entry.attrs) || not (is_nil i.novel))
            tombstone_with_data
          ≡ ok tt)
unfolding check_item
checked_tomb fs d i t h = ground arith

module _ (fs : Platform) (d : Digests) (seq : ℕ) where
  tomb_item :
      (i : FramedRecord)
      → i.tombstone ≡ true
      → is_utf8 i.entry.id ≡ true
      → check_item fs d i ≡ ok tt
      → tomb_frame seq i.entry.id ≡ ok (frame_of seq i)
  unfolding tomb_frame
  tomb_item i t u h =
      let (named, bare) = checked_tomb fs d i t h in
      let (c, a, n) = nothing_else i bare in rw (u, named, t, c, a, n, sort-nil) refl

  pub record_item :
      (i : FramedRecord) {payload : Bytes}
      → i.tombstone ≡ false
      → IsTyped i.entry i.novel
      → encode_record d i.entry i.novel ≡ ok payload
      → record_frame d seq payload ≡ ok (frame_of seq i)
  unfolding record_frame
  record_item i {payload} t typed h =
      rw (decode-encode_record d i.entry i.novel payload typed h, t) refl

  -- What the appended members are: their bytes behind the log, and the frames of the items.
  unfoldable pub Appended : List FramedRecord → Wal → Wal → Type 0
  Appended is w w' =
      (ms : List Member) × (contents w' ≡ contents w ++ log_bytes d (physical_members seq ms))
      × IsBacked w'
      × All (IsMember d seq) ms
      × (map (λ (m : Member). m.frame) ms ≡ map (frame_of seq) is)
      × (length ms ≡ length is)

  ItemAppended : FramedRecord → Wal → Wal → Type 0
  ItemAppended i w w' =
      (m : Member) × (contents w' ≡ contents w ++ physical_bytes d (physical_member seq m))
      × IsBacked w'
      × IsMember d seq m
      × (m.frame ≡ frame_of seq i)

  append_tomb_item :
      (i : FramedRecord) (w : Wal) {w' : Wal}
      → IsBacked w
      → ItemTyped i
      → check_item fs d i ≡ ok tt
      → i.tombstone ≡ true
      → append_item fs d seq i w ≡ (ok tt, w')
      → ItemAppended i w w'
  unfolding append_item ItemAppended IsMember
  append_tomb_item i w b typed checked t h =
      let (same, backed) =
        append_frame-contents fs d batch_tomb_tag seq i.entry.id w b (rw t at h) in
      (
        record { payload = i.entry.id; frame = frame_of seq i },
        rw t same,
        backed,
        rw t (rw t at (tomb_item i t typed.0 checked)),
        refl,
      )

  append_record_item :
      (i : FramedRecord) (w : Wal) {w' : Wal}
      → IsBacked w
      → ItemTyped i
      → i.tombstone ≡ false
      → append_item fs d seq i w ≡ (ok tt, w')
      → ItemAppended i w w'
  unfolding append_item ItemAppended IsMember
  append_record_item i w b typed t h =
      let (payload, encoded, k) = continue-inv (encode_record d i.entry i.novel) _ w (rw t at h) in
      let (same, backed) = append_frame-contents fs d batch_record_tag seq payload w b k in
      (
        record { payload = payload; frame = frame_of seq i },
        rw t same,
        backed,
        rw t (rw t at (record_item i t typed.1 encoded)),
        refl,
      )

  append_item-contents :
      (i : FramedRecord) (w : Wal) {w' : Wal}
      → IsBacked w
      → ItemTyped i
      → check_item fs d i ≡ ok tt
      → append_item fs d seq i w ≡ (ok tt, w')
      → ItemAppended i w w'
  append_item-contents i w b typed checked h = elim (Bool-cases i.tombstone) [
    | inl t ↦ append_tomb_item i w b typed checked t h
    | inr t ↦ append_record_item i w b typed t h
  ]

  pub append_items-contents :
      (is : List FramedRecord) (w : Wal) {w' : Wal}
      → IsBacked w
      → All ItemTyped is
      → All (λ (i : FramedRecord). check_item fs d i ≡ ok tt) is
      → append_items fs d seq is w ≡ (ok tt, w')
      → Appended is w w'
  unfolding append_items Appended ItemAppended log_bytes
  append_items-contents [] w b typed checked h = (
    [],
    ap contents (sym (same_state h)) ∙ sym (append-nil (contents w)),
    subst IsBacked (same_state h) b,
    tt,
    refl,
    refl,
  )
  append_items-contents (i ∷ is) w b typed checked h =
      let (u, e, k) = continue-inv (append_item fs d seq i w).0 _ (append_item fs d seq i w).1 h in
      let (m, same, backed, sound, framed) =
        append_item-contents i w b typed.0 checked.0
          (ap (λ (r : Result (Unit {0})). (r, (append_item fs d seq i w).1)) e) in
      let (ms, sames, backs, sounds, frames, count) =
        append_items-contents is (append_item fs d seq i w).1 backed typed.1 checked.1 k in
      (
        m ∷ ms,
        sames
            ∙ ap (λ (t : Bytes). t ++ log_bytes d (physical_members seq ms)) same
            ∙ append_assoc (contents w) (physical_bytes d (physical_member seq m))
                (log_bytes d (physical_members seq ms)),
        backs,
        (sound, sounds),
        ap₂ (λ (f : Frame) (fs : List Frame). f ∷ fs) framed frames,
        ap suc count,
      )
