-- ===== src/Tests/Records.antt =====
-- Records and their payloads.
use turndb.Shared.{
  ◌≡◌, refl, ◌↔◌, List, [], ◌∷◌, some, replicate, All, Bytes, bytes_eq, bytes_lt, is_utf8, ok, err,
  arith,
}
use turndb.Types.{
  Content, lit, uint, Record, validate_contents, validate_contents_from, any_zero_piece,
  contains_name, sort_contents, insert_content, new_record, content, find_content,
  validate_contents_iff, new_record_lem, Distinct, IsSound, IsSorted,
}
use turndb.Wal.Codec.Payload.{
  encode_record, decode_record, validate_record_for_wal, check_novel, verify_frame_local_identities,
  verify_contents, verify_content, put_contents, put_content, collect_pieces, check_identity,
  verify_ops,
}
use turndb.Wal.Codec.ContentLaws.{IsTyped}
use turndb.Wal.Codec.RoundTrip.{decode-encode_record}
use turndb.Tests.Samples.{toy}

-- Two contents, "b" before "a", and one attribute.
abbrev pub body_content : Content
body_content = record {
  name = 0x62 ∷ [];
  ops = lit (1 ∷ 2 ∷ 3 ∷ []) ∷ [];
  identity = some (replicate 32 3);
}

abbrev pub title_content : Content
title_content = record {
  name = 0x61 ∷ [];
  ops = lit (9 ∷ []) ∷ [];
  identity = some (replicate 32 1);
}

abbrev pub pair : List Content
pair = body_content ∷ title_content ∷ []

abbrev pub sample : Record
sample = record { id = 0x78 ∷ []; contents = pair; attrs = (0x6b ∷ [], uint 5) ∷ [] }

abbrev pub sorted_sample : Record
sorted_sample = record sample { contents = title_content ∷ body_content ∷ [] }

validate_contents_iff_example :
    (validate_contents pair ≡ ok tt) ↔ (Distinct pair × All IsSound pair)
validate_contents_iff_example = validate_contents_iff pair

built : new_record (0x78 ∷ []) pair sample.attrs ≡ ok sorted_sample
unfolding new_record validate_contents validate_contents_from any_zero_piece contains_name
    sort_contents insert_content bytes_eq bytes_lt
built = refl

new_record_lem_example :
    (sorted_sample.id ≡ 0x78 ∷ [])
    × (sorted_sample.attrs ≡ sample.attrs)
    × IsSorted sorted_sample.contents
    × ((name : Bytes) → content sorted_sample name ≡ find_content pair name)
new_record_lem_example = new_record_lem (0x78 ∷ []) pair sample.attrs sorted_sample built

sample-IsTyped : IsTyped sample []
unfolding is_utf8
sample-IsTyped = record {
  id = (omega arith, refl);
  contents = (
    omega arith,
    (
      record {
        name = (omega arith, refl);
        ops = (omega arith, (omega arith, tt));
        identity = refl;
      },
      (
        record {
          name = (omega arith, refl);
          ops = (omega arith, (omega arith, tt));
          identity = refl;
        },
        tt,
      ),
    ),
  );
  attrs = (omega arith, ((omega arith, refl, omega arith), tt));
  pieces = (omega arith, tt);
}

abbrev payload : Bytes
payload = elim (encode_record toy sample []) [ ok b ↦ b | err e ↦ [] ]

encoded : encode_record toy sample [] ≡ ok payload
unfolding encode_record validate_record_for_wal validate_contents validate_contents_from
    any_zero_piece contains_name sort_contents insert_content bytes_eq bytes_lt check_novel
    verify_frame_local_identities verify_contents verify_content put_contents put_content
    collect_pieces check_identity verify_ops
encoded = refl

decode-encode_record_example :
    decode_record toy payload ≡ ok (record sample { contents = sort_contents pair }, [])
decode-encode_record_example = decode-encode_record toy sample [] payload sample-IsTyped encoded
