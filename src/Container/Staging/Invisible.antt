-- ===== src/Container/Staging/Invisible.antt =====
-- Sequences of staging operations, and what opening the file then finds.
use turndb.Shared.{
  ℕ, ◌≤◌, ◌≡◌, refl, List, [], ◌∷◌, Option, none, some, Bytes, Result, ok, err, OnOk,
}
use turndb.Shared.Digests.{Digests}
use turndb.Block.Codec.{Zstd}
use turndb.Container.Disk.{Disk}
use turndb.Container.Directory.Decode.{Directory}
use turndb.Container.State.{Container, MemberWrite, selected_state}
use turndb.Container.Staging
use turndb.Container.Staging.{Fill}
use turndb.Container.Staging.Behind.{Grown}
use turndb.Container.Staging.Operations.{
  put_bytes-Keeps, put_stream-Keeps, append_stream-Keeps, remove_member-Keeps, begin_member-Keeps,
  write_member-Keeps, abandon_open_member-Keeps, abandon_member-Keeps, finish_member-Keeps,
  discard_staged-Keeps,
}
use turndb.Container.Front.{selected_state-front}

-- A call on the handle of a container, or on the member write that was begun last.
pub data Call : Type 0 where
  put_bytes : Bytes → Bytes → Call
  put_stream : Bytes → ℕ → Fill → Call
  append_stream : Bytes → ℕ → Fill → Call
  remove_member : Bytes → Call
  begin_member : Bytes → Call
  write_member : Bytes → ℕ → Call
  finish_member abandon_member abandon_open_member discard_staged : Call

-- The handle, and the member write that its client holds.
abbrev pub Session : Type 0
Session = Container × Option MemberWrite

abbrev newer : Option MemberWrite → Result MemberWrite → Option MemberWrite
newer held (ok w) = some w
newer held (err e) = held

abbrev member_write : Result MemberWrite × Container → Option MemberWrite → Session
member_write (r, c) held = (c, newer held r)

module _ (disk : Disk) (d : Digests) (z : Zstd) (crc_combine : ℕ → ℕ → Bytes → ℕ) where
  -- One call, whether it succeeds or fails.
  unfoldable pub step : Call → Session → Session
  step (put_bytes name bytes) (c, held) = ((Staging.put_bytes disk d name bytes c).1, held)
  step (put_stream name len fill) (c, held) = ((Staging.put_stream disk d name len fill c).1, held)
  step (append_stream name len fill) (c, held) =
      ((Staging.append_stream disk crc_combine name len fill c).1, held)
  step (remove_member name) (c, held) = ((Staging.remove_member name c).1, held)
  step (begin_member name) (c, held) = member_write (Staging.begin_member name c) held
  step (write_member buf off) (c, none) = (c, none)
  step (write_member buf off) (c, some w) =
      member_write (Staging.write_member disk w buf off c) (some w)
  step finish_member (c, none) = (c, none)
  step finish_member (c, some w) = ((Staging.finish_member d w c).1, none)
  step abandon_member (c, none) = (c, none)
  step abandon_member (c, some w) = ((Staging.abandon_member w c).1, none)
  step abandon_open_member (c, held) = ((Staging.abandon_open_member c).1, held)
  step discard_staged (c, held) = ((Staging.discard_staged d z c).1, held)

  unfoldable pub run : List Call → Session → Session
  run [] session = session
  run (call ∷ calls) session = run calls (step call session)

  abbrev HeldBehind : Container → Option MemberWrite → Type 0
  HeldBehind s none = Unit {0}
  HeldBehind s (some w) = s.sb.tail ≤ w.off

  newer-HeldBehind :
      (s : Container) (held : Option MemberWrite) (r : Result MemberWrite)
      → HeldBehind s held
      → OnOk (λ w. s.sb.tail ≤ w.off) r
      → HeldBehind s (newer held r)
  newer-HeldBehind s held (ok w) h k = k
  newer-HeldBehind s held (err e) h k = h

  abbrev Apart : Container → Session → Type 0
  Apart s (c, held) = Grown s c × HeldBehind s held

  step-Apart :
      (s : Container) (call : Call) (session : Session)
      → Apart s session
      → Apart s (step call session)
  unfolding step
  step-Apart s (put_bytes name bytes) (c, held) (g, h) =
      ((put_bytes-Keeps s disk d name bytes c g).0, h)
  step-Apart s (put_stream name len fill) (c, held) (g, h) =
      ((put_stream-Keeps s disk d name len fill c g).0, h)
  step-Apart s (append_stream name len fill) (c, held) (g, h) =
      ((append_stream-Keeps s disk crc_combine name len fill c g).0, h)
  step-Apart s (remove_member name) (c, held) (g, h) = ((remove_member-Keeps s name c g).0, h)
  step-Apart s (begin_member name) (c, held) (g, h) =
      let (g', behind) = begin_member-Keeps s name c g in
      (g', newer-HeldBehind s held (Staging.begin_member name c).0 h behind)
  step-Apart s (write_member buf off) (c, none) (g, h) = (g, h)
  step-Apart s (write_member buf off) (c, some w) (g, h) =
      let (g', behind) = write_member-Keeps s disk w buf off h c g in
      (g', newer-HeldBehind s (some w) (Staging.write_member disk w buf off c).0 h behind)
  step-Apart s finish_member (c, none) (g, h) = (g, h)
  step-Apart s finish_member (c, some w) (g, h) = ((finish_member-Keeps s d w h c g).0, tt)
  step-Apart s abandon_member (c, none) (g, h) = (g, h)
  step-Apart s abandon_member (c, some w) (g, h) = ((abandon_member-Keeps s w c g).0, tt)
  step-Apart s abandon_open_member (c, held) (g, h) = ((abandon_open_member-Keeps s c g).0, h)
  step-Apart s discard_staged (c, held) (g, h) = ((discard_staged-Keeps s d z c g).0, h)

  run-Apart :
      (s : Container) (calls : List Call) (session : Session)
      → Apart s session
      → Apart s (run calls session)
  unfolding run
  run-Apart s [] session h = h
  run-Apart s (call ∷ calls) session h =
      run-Apart s calls (step call session) (step-Apart s call session h)

  -- Staging is invisible: when opening the file of a handle finds the handle's superblock in its
  -- slot, then after any sequence of staging calls, failed ones and failed writes included, opening
  -- the file finds the same superblock, slot and directory. The handle's cursor is not in front of
  -- the committed end.
  pub run-invisible :
      (c : Container) (calls : List Call) {directory : Directory}
      → selected_state d z c.file c.read_limits ≡ ok (c.sb, c.slot, directory)
      → c.sb.tail ≤ c.tail
      → selected_state d z (run calls (c, none)).0.file c.read_limits ≡ ok (c.sb, c.slot, directory)
  run-invisible c calls h behind =
      let front = selected_state-front d z c.file c.read_limits h in
      let start : Grown c c = record {
        sb = refl;
        slot = refl;
        limits = refl;
        tail = behind;
        front = refl;
        long = front.0;
      } in
      let end = (run-Apart c calls (c, none) (start, tt)).0 in
      front.1 (run calls (c, none)).0.file end.front end.long
