-- ===== src/Wal/Codec/Payload.antt =====
-- `encode_record`, `decode_record` and the checks that both make, of src/store/wal.rs.
use turndb.Shared.{
  ℕ, zero, suc, Bool, true, false, not, ◌==◌, ◌||◌, if◌then◌else◌, List, [], ◌∷◌, ◌++◌, length,
  Option, none, some, Bytes, bytes_eq, bytes_lt, is_utf8, Result, ok, err, ◌>>=◌, ◌>>◌, bail_if,
  not_utf8, attribute_name_empty, novel_piece_empty, novel_piece_hash, duplicate_novel_piece,
  piece_length_differs, identity_missing, identity_differs, content_order, trailing_bytes,
  record_id_empty,
}
use turndb.Shared.Digests.{Digests}
use turndb.Types.{
  Value, ContentOp, lit, piece, Content, Record, is_empty_name, validate_contents, sort_contents,
  new_record,
}
use turndb.Varint.{varint, get_varint}
use turndb.Wal.Codec.Fields.{
  put_bytes, get_bytes, take_field, put_ops, get_ops, put_attrs, get_attrs, put_novel, get_novel,
}

-- The `HashMap` from a piece's hash to its bytes.
unfoldable pub find_piece : List (Bytes × Bytes) → Bytes → Option Bytes
find_piece [] hash = none
find_piece ((h, body) ∷ pieces) hash = if bytes_eq h hash then some body else find_piece pieces hash

abbrev is_some {ℓ} : {A : Type ℓ} → Option A → Bool
is_some none = false
is_some (some a) = true

unfoldable pub collect_pieces :
    List (Bytes × Bytes) → List (Bytes × Bytes) → Result (List (Bytes × Bytes))
collect_pieces pieces [] = ok pieces
collect_pieces pieces ((hash, body) ∷ novel) = do
  bail_if (is_some (find_piece pieces hash)) duplicate_novel_piece
  collect_pieces ((hash, body) ∷ pieces) novel

-- One op: what the hasher has been fed so far, and whether every piece was at hand.
verify_op : List (Bytes × Bytes) → ContentOp → Bytes → Bool → Result (Bytes × Bool)
verify_op pieces (lit b) hashed complete = ok (hashed ++ b, complete)
verify_op pieces (piece hash len) hashed complete = elim (find_piece pieces hash) [
  | none ↦ ok (hashed, false)
  | some body ↦ do
    bail_if (not (length body == len)) piece_length_differs
    ok (hashed ++ body, complete)
]

unfoldable pub verify_ops :
    List (Bytes × Bytes) → List ContentOp → Bytes → Bool → Result (Bytes × Bool)
unfolding verify_op
verify_ops pieces [] hashed complete = ok (hashed, complete)
verify_ops pieces (op ∷ ops) hashed complete = do
  (hashed, complete) ← verify_op pieces op hashed complete
  verify_ops pieces ops hashed complete

unfoldable pub any_empty_key : List (Bytes × Value) → Bool
any_empty_key [] = false
any_empty_key ((key, value) ∷ attrs) = is_empty_name key || any_empty_key attrs

unfoldable pub put_content : Content → Result Bytes
put_content c = elim c.identity [
  | none ↦ err identity_missing
  | some identity ↦ ok (put_bytes c.name ++ (identity ++ put_ops c.ops))
]

unfoldable pub put_contents : List Content → Result Bytes
unfolding put_content
put_contents [] = ok []
put_contents (c ∷ cs) = do first ← put_content c; others ← put_contents cs; ok (first ++ others)

-- `previous_name.is_some_and(|previous| previous >= name)`
unfoldable pub out_of_order : Option Bytes → Bytes → Bool
out_of_order none name = false
out_of_order (some previous) name = not (bytes_lt previous name)

unfoldable pub get_content : Option Bytes → Bytes → Result (Content × Bytes)
unfolding out_of_order
get_content previous b = do
  (name, rest) ← get_bytes b
  bail_if (out_of_order previous name) content_order
  bail_if (not (is_utf8 name)) not_utf8
  (digest, rest) ← take_field rest 32
  (ops, rest) ← get_ops rest
  ok (record { name = name; ops = ops; identity = some digest }, rest)

unfoldable pub get_contents : ℕ → Option Bytes → Bytes → Result (List Content × Bytes)
get_contents zero previous b = ok ([], b)
get_contents (suc n) previous b = do
  (c, rest) ← get_content previous b
  (cs, rest) ← get_contents n (some c.name) rest
  ok (c ∷ cs, rest)

module _ (d : Digests) where
  unfoldable pub check_identity : Bytes → Option Bytes → Result (Unit {0})
  check_identity hashed none = err identity_missing
  check_identity hashed (some declared) =
      bail_if (not (bytes_eq (d.blake3 hashed) declared)) identity_differs

  unfoldable pub verify_content : List (Bytes × Bytes) → Content → Result (Unit {0})
  verify_content pieces c = do
    (hashed, complete) ← verify_ops pieces c.ops [] true
    if complete then check_identity hashed c.identity else ok tt

  unfoldable pub verify_contents : List (Bytes × Bytes) → List Content → Result (Unit {0})
  verify_contents pieces [] = ok tt
  verify_contents pieces (c ∷ cs) = do verify_content pieces c; verify_contents pieces cs

  unfoldable pub verify_frame_local_identities : Record → List (Bytes × Bytes) → Result (Unit {0})
  verify_frame_local_identities r novel = do
    pieces ← collect_pieces [] novel
    verify_contents pieces r.contents

  -- The loop over `novel`, with the set of the hashes seen so far.
  unfoldable pub check_novel : List (Bytes × Bytes) → List (Bytes × Bytes) → Result (Unit {0})
  check_novel identities [] = ok tt
  check_novel identities ((hash, body) ∷ novel) = do
    bail_if (is_empty_name body) novel_piece_empty
    bail_if (not (bytes_eq (d.blake3 body) hash)) novel_piece_hash
    bail_if (is_some (find_piece identities hash)) duplicate_novel_piece
    check_novel ((hash, body) ∷ identities) novel

  unfoldable pub validate_record_for_wal : Record → List (Bytes × Bytes) → Result (Unit {0})
  unfolding any_empty_key
  validate_record_for_wal r novel = do
    validate_contents r.contents
    bail_if (is_empty_name r.id) record_id_empty
    bail_if (any_empty_key r.attrs) attribute_name_empty
    check_novel [] novel
    verify_frame_local_identities r novel

  unfoldable pub encode_record : Record → List (Bytes × Bytes) → Result Bytes
  encode_record r novel = do
    validate_record_for_wal r novel
    contents ← put_contents (sort_contents r.contents)
    ok (
        put_bytes r.id
        ++ (varint (length r.contents) ++ (contents ++ (put_attrs r.attrs ++ put_novel novel))))

  unfoldable pub decode_record : Bytes → Result (Record × List (Bytes × Bytes))
  decode_record b = do
    (id, rest) ← get_bytes b
    bail_if (not (is_utf8 id)) not_utf8
    (n_contents, rest) ← get_varint rest
    (contents, rest) ← get_contents n_contents none rest
    (attrs, rest) ← get_attrs rest
    (novel, rest) ← get_novel d rest
    bail_if (not (is_empty_name rest)) trailing_bytes
    r ← new_record id contents attrs
    verify_frame_local_identities r novel
    ok (r, novel)
