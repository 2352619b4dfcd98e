-- ===== src/Tests/Appends.antt =====
-- A record and a deletion appended to a log.
use turndb.Shared.{◌≡◌, refl, true, false, [], ◌∷◌, ◌++◌, Bytes, is_utf8, ok, arith}
use turndb.ReadLimits.{default_limits, admit_wal_frames}
use turndb.Types.{Record, validate_contents, validate_contents_from, sort_contents}
use turndb.Wal.Codec.Payload.{
  encode_record, validate_record_for_wal, check_novel, verify_frame_local_identities,
  collect_pieces, verify_contents, put_contents,
}
use turndb.Wal.Codec.ContentLaws.{IsTyped}
use turndb.Wal.Frame.{frame_bytes}
use turndb.Wal.Writer.{
  Wal, append, append_tomb, append_frame, admit_additional_frames, push_frame, flush_before,
}
use turndb.Wal.Replay.Frames.{log_bytes}
use turndb.Wal.Log.{Member, single, physical_of, IsEntry}
use turndb.Wal.Log.Append.{contents, IsBacked}
use turndb.Wal.Log.AppendItems.{frame_of}
use turndb.Wal.Log.AppendSingle.{append-contents}
use turndb.Tests.Samples.{toy, memory}
use turndb.Varint.{varint_small}
use turndb.Wal.Codec.Fields.{put_bytes, put_attrs, put_novel, put_many}

abbrev fresh : Wal
fresh = record { file = []; file_len = 0; buf = []; read_limits = default_limits; frame_count = 0 }

abbrev deleted : Wal
deleted = record fresh { buf = frame_bytes toy 0xd1 2 (0x62 ∷ []); frame_count = 1 }

delete_done : append_tomb memory toy 2 (0x62 ∷ []) fresh ≡ (ok tt, deleted)
unfolding append_tomb append_frame push_frame flush_before admit_additional_frames admit_wal_frames
delete_done = refl

id-is_utf8 : is_utf8 (0x62 ∷ []) ≡ true
unfolding is_utf8
id-is_utf8 = refl

-- A record with an id alone, and its payload.
abbrev bare : Record
bare = record { id = 0x62 ∷ []; contents = []; attrs = [] }

abbrev bare_payload : Bytes
bare_payload = 1 ∷ 0x62 ∷ 0 ∷ 0 ∷ 0 ∷ []

bare_encoded : encode_record toy bare [] ≡ ok bare_payload
unfolding encode_record validate_record_for_wal validate_contents validate_contents_from check_novel
    verify_frame_local_identities collect_pieces verify_contents sort_contents put_contents
    put_bytes put_attrs put_novel put_many
bare_encoded = rw (varint_small 1 (omega arith), varint_small 0 (omega arith)) refl

abbrev stored : Wal
stored = record fresh { buf = frame_bytes toy 0xd4 2 bare_payload; frame_count = 1 }

store_done : append memory toy 2 bare [] fresh ≡ (ok tt, stored)
unfolding append append_frame push_frame flush_before admit_additional_frames admit_wal_frames
store_done = rw bare_encoded refl

bare-IsTyped : IsTyped bare []
bare-IsTyped = record {
  id = (omega arith, id-is_utf8);
  contents = (omega arith, tt);
  attrs = (omega arith, tt);
  pieces = (omega arith, tt);
}

append-contents_example :
    (m : Member) × (contents stored ≡ contents fresh ++ log_bytes toy (physical_of (single 2 m)))
    × IsBacked stored
    × IsEntry toy (single 2 m)
    × (m.frame ≡ frame_of 2 (record { entry = bare; novel = []; tombstone = false }))
append-contents_example =
    append-contents memory toy 2 fresh bare [] (omega arith) bare-IsTyped store_done
