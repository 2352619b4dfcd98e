-- ===== src/Container/Staging/Operations.antt =====
-- Each operation of a handle writes behind the committed state only.
use turndb.Shared.{
  ℕ, ◌+◌, refl, true, false, not, ◌==◌, [], length, Option, none, some, Bytes, bail_if, arith,
  member_length_overflow, length_overflow, write_out_of_order,
}
use turndb.Shared.Digests.{Digests}
use turndb.Shared.Maps.{find, insert}
use turndb.Shared.Exec.{pure, lift, Keeps, lift-Keeps, pure-Keeps, >>=-Keeps, if-Keeps}
use turndb.Block.Codec.{Zstd}
use turndb.Container.Disk.{Disk}
use turndb.Container.Directory.Encode.{Member}
use turndb.Container.State.{Container, MemberWrite, ensure_writable, checked_add, next_seq}
use turndb.Container.Directory.Decode.{read_directory}
use turndb.Container.Preflight.{
  preflight_member, preflight_append, preflight_begin, check_current, check_free_count,
}
use turndb.Container.Staging.{
  check, modify, Fill, staged_entry, stage_entry, without_member, remove_found, remove_member,
  abandon_open_member, abandon_member, begin_member, finish_member, discard_staged, write_out,
  write_member, write_stream, put_bytes, put_stream, extended, append_nonempty, append_stream,
}
use turndb.Container.Staging.Behind.{
  Grown, check-Keeps, check-Any, lift-Any, write_out-Keeps, then-Keeps, preflight_member-Behind,
  preflight_begin-Behind, preflight_append-Behind, write_stream-Keeps, modify-Keeps, restaged,
  checked_add-Behind, Behind, Any, BehindBegin, BehindAppend,
}

module _ (s : Container) where
  stage_entry-Keeps :
      (name : Bytes) (off len xsum : ℕ)
      → Behind s off
      → Keeps (Grown s) (Any s) (stage_entry name off len xsum)
  unfolding stage_entry staged_entry
  stage_entry-Keeps name off len xsum h =
      then-Keeps s (Any s) (lift (checked_add off len length_overflow)) _
        (lift-Any s (checked_add off len length_overflow))
        λ _. then-Keeps s (Any s) (check next_seq) _ (check-Any s next_seq) λ seq.
          modify-Keeps s (staged_entry name off len xsum seq)
            λ c g. restaged s c _ g refl refl refl refl (omega (arith, h))

  pub put_bytes-Keeps :
      (disk : Disk) (d : Digests) (name bytes : Bytes)
      → Keeps (Grown s) (Any s) (put_bytes disk d name bytes)
  unfolding put_bytes
  put_bytes-Keeps disk d name bytes =
      >>=-Keeps (Grown s) (Behind s) (Any s) (check (preflight_member name (length bytes))) _
        (check-Keeps s (Behind s) _ (preflight_member-Behind s name (length bytes)))
        λ off behind.
          then-Keeps s (Any s) (write_out disk bytes off) _
            (write_out-Keeps s disk bytes off behind)
            λ _. stage_entry-Keeps name off (length bytes) (d.crc32 bytes) behind

  pub put_stream-Keeps :
      (disk : Disk) (d : Digests) (name : Bytes) (len : ℕ) (fill : Fill)
      → Keeps (Grown s) (Any s) (put_stream disk d name len fill)
  unfolding put_stream
  put_stream-Keeps disk d name len fill =
      >>=-Keeps (Grown s) (Behind s) (Any s) (check (preflight_member name len)) _
        (check-Keeps s (Behind s) _ (preflight_member-Behind s name len))
        λ off behind.
          then-Keeps s (Any s) (write_stream disk (len + 1) fill len off 0 []) _
            (write_stream-Keeps s disk (len + 1) fill len off 0 [] behind)
            λ hashed. stage_entry-Keeps name off len (d.crc32 hashed) behind

  pub append_stream-Keeps :
      (disk : Disk) (crc_combine : ℕ → ℕ → Bytes → ℕ) (name : Bytes) (len : ℕ) (fill : Fill)
      → Keeps (Grown s) (Any s) (append_stream disk crc_combine name len fill)
  unfolding append_stream append_nonempty
  append_stream-Keeps disk crc_combine name len fill =
      then-Keeps s (Any s) (check ensure_writable) _ (check-Any s ensure_writable) λ _.
        if-Keeps (Grown s) (Any s) (len == 0) _ _ (pure-Keeps (Grown s) (Any s) tt tt) (
          >>=-Keeps (Grown s) (BehindAppend s) (Any s) (check (preflight_append name len)) _
            (check-Keeps s (BehindAppend s) _ (preflight_append-Behind s name len))
            λ plan behind.
              then-Keeps s (Any s) (write_stream disk (len + 1) fill len plan.write_off 0 []) _
                (write_stream-Keeps s disk (len + 1) fill len plan.write_off 0 [] behind.0)
                λ delta.
                  modify-Keeps s
                    (λ c. record c {
                      dir = insert name (extended crc_combine plan len delta) c.dir;
                      tail = plan.write_end;
                      staged = true;
                    })
                    λ c g. restaged s c _ g refl refl refl refl behind.1)

  remove_found-Keeps :
      (found : Option Member) (name : Bytes) (seq : ℕ)
      → Keeps (Grown s) (Any s) (remove_found found name seq)
  unfolding remove_found without_member
  remove_found-Keeps none name seq = pure-Keeps (Grown s) (Any s) false tt
  remove_found-Keeps (some m) name seq =
      then-Keeps s (Any s) (check (check_free_count (length m.extents))) _
        (check-Any s (check_free_count (length m.extents)))
        λ _.
          then-Keeps s (Any s) (modify (without_member name m seq)) (λ _. pure true)
            (modify-Keeps s (without_member name m seq)
              λ c g. restaged s c _ g refl refl refl refl g.tail)
            λ _. pure-Keeps (Grown s) (Any s) true tt

  pub remove_member-Keeps : (name : Bytes) → Keeps (Grown s) (Any s) (remove_member name)
  unfolding remove_member
  remove_member-Keeps name =
      then-Keeps s (Any s) (check ensure_writable) _ (check-Any s ensure_writable) λ _.
        then-Keeps s (Any s) (check next_seq) _ (check-Any s next_seq)
          λ seq. λ c g. remove_found-Keeps (find name c.dir) name seq c g

  pub begin_member-Keeps :
      (name : Bytes) → Keeps (Grown s) (λ w. Behind s (w.off)) (begin_member name)
  unfolding begin_member
  begin_member-Keeps name =
      >>=-Keeps (Grown s) (BehindBegin s) (λ w. Behind s (w.off)) (check (preflight_begin name)) _
        (check-Keeps s (BehindBegin s) _ (preflight_begin-Behind s name))
        λ (off, token) behind.
          then-Keeps s {B = MemberWrite} (λ w. Behind s (w.off))
            (modify (λ c. record c { next_member_token = token; open_member = some token }))
            (λ _ c.
              pure
                (record {
                  f = c.f;
                  token = token;
                  name = name;
                  off = off;
                  written = 0;
                  hashed = [];
                })
                c)
            (modify-Keeps s (λ c. record c { next_member_token = token; open_member = some token })
              λ c g. restaged s c _ g refl refl refl refl g.tail)
            λ _ c g. (g, behind)

  pub write_member-Keeps :
      (disk : Disk) (w : MemberWrite) (buf : Bytes) (off : ℕ)
      → Behind s w.off
      → Keeps (Grown s) (λ w. Behind s (w.off)) (write_member disk w buf off)
  unfolding write_member
  write_member-Keeps disk w buf off h =
      then-Keeps s (λ w. Behind s (w.off))
        (lift (bail_if (not (off == w.written)) write_out_of_order)) _
        (lift-Any s (bail_if (not (off == w.written)) write_out_of_order))
        λ _.
          then-Keeps s (λ w. Behind s (w.off))
            (lift (checked_add w.written (length buf) member_length_overflow)) _
            (lift-Any s (checked_add w.written (length buf) member_length_overflow))
            λ written.
              >>=-Keeps (Grown s) (Behind s) (λ w. Behind s (w.off))
                (lift (checked_add w.off off length_overflow)) _
                (lift-Keeps (Grown s) (Behind s) _ (checked_add-Behind s w.off off h))
                λ physical behind.
                  then-Keeps s (λ w. Behind s (w.off))
                    (lift (checked_add physical (length buf) length_overflow)) _
                    (lift-Any s (checked_add physical (length buf) length_overflow))
                    λ _.
                      then-Keeps s {B = MemberWrite} (λ w. Behind s (w.off))
                        (write_out disk buf physical) _ (write_out-Keeps s disk buf physical behind)
                        λ _ c g. (g, h)

  pub abandon_open_member-Keeps : Keeps (Grown s) (Any s) abandon_open_member
  unfolding abandon_open_member
  abandon_open_member-Keeps =
      modify-Keeps s (λ c. record c { open_member = none })
        λ c g. restaged s c _ g refl refl refl refl g.tail

  pub abandon_member-Keeps : (w : MemberWrite) → Keeps (Grown s) (Any s) (abandon_member w)
  unfolding abandon_member
  abandon_member-Keeps w =
      then-Keeps s (Any s) (check (check_current w)) _ (check-Any s (check_current w))
        λ _. abandon_open_member-Keeps

  pub finish_member-Keeps :
      (d : Digests) (w : MemberWrite) → Behind s w.off → Keeps (Grown s) (Any s) (finish_member d w)
  unfolding finish_member
  finish_member-Keeps d w h =
      then-Keeps s (Any s) (check (check_current w)) _ (check-Any s (check_current w)) λ _.
        then-Keeps s (Any s) abandon_open_member _ abandon_open_member-Keeps λ _.
          then-Keeps s {B = Bytes} (Any s) (stage_entry w.name w.off w.written (d.crc32 w.hashed)) _
            (stage_entry-Keeps w.name w.off w.written (d.crc32 w.hashed) h)
            λ _. pure-Keeps (Grown s) (Any s) (d.blake3 w.hashed) tt

  pub discard_staged-Keeps : (d : Digests) (z : Zstd) → Keeps (Grown s) (Any s) (discard_staged d z)
  unfolding discard_staged
  discard_staged-Keeps d z =
      then-Keeps s (Any s) (check (λ c. read_directory d z c.file c.sb c.read_limits)) _
        (check-Any s (λ c. read_directory d z c.file c.sb c.read_limits))
        λ (dir, free).
          modify-Keeps s
            (λ c. record c {
              dir = dir;
              free = free;
              tail = c.sb.tail;
              staged = false;
              open_member = none;
            })
            λ c g. restaged s c _ g refl refl refl refl (rw g.sb (omega arith))
