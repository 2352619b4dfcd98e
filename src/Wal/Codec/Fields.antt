-- ===== src/Wal/Codec/Fields.antt =====
-- The fields of a payload. A `put_*` function returns what it appends to `out`; a `get_*` function
-- takes the payload from the cursor on and returns the field with what follows it.
use turndb.Shared.{
  ℕ, zero, suc, ◌-◌, ◌^◌, true, false, not, ◌==◌, ltb, if◌then◌else◌, List, [], ◌∷◌, ◌++◌, length,
  take, drop, Bytes, bytes_eq, is_utf8, Result, ok, err, ◌>>=◌, ◌>>◌, bail_if, field_past_frame,
  truncated_op, unknown_op, piece_length_not_u32, piece_length_zero, not_utf8, attribute_name_empty,
  truncated_attr, invalid_boolean, unknown_attr, novel_piece_empty, novel_piece_hash,
}
use turndb.Shared.Words.{to_le_bytes, from_le_bytes}
use turndb.Shared.Digests.{Digests}
use turndb.Types.{
  Value, str, int, float, bool, uint, bytes, timestamp_ns, null, ContentOp, lit, piece, type_tag,
  is_empty_name,
}
use turndb.Varint.{varint, get_varint}

unfoldable pub put_bytes : Bytes → Bytes
put_bytes b = varint (length b) ++ b

-- `take`: a field of a fixed width.
unfoldable pub take_field : Bytes → ℕ → Result (Bytes × Bytes)
take_field b n = do bail_if (ltb (length b) n) field_past_frame; ok (take n b, drop n b)

unfoldable pub get_bytes : Bytes → Result (Bytes × Bytes)
get_bytes b = do
  (n, rest) ← get_varint b
  bail_if (ltb (length rest) n) field_past_frame
  ok (take n rest, drop n rest)

-- `for _ in 0..n { xs.push(get(b, at)?) }`
unfoldable pub get_many {ℓ} :
    {A : Type ℓ} → (Bytes → Result (A × Bytes)) → ℕ → Bytes → Result (List A × Bytes)
get_many get zero b = ok ([], b)
get_many get (suc n) b = do (x, rest) ← get b; (xs, rest) ← get_many get n rest; ok (x ∷ xs, rest)

-- `for x in xs { put(out, x) }`
unfoldable pub put_many {ℓ} : {A : Type ℓ} → (A → Bytes) → List A → Bytes
put_many put [] = []
put_many put (x ∷ xs) = put x ++ put_many put xs

unfoldable pub put_op : ContentOp → Bytes
put_op (lit b) = 0 ∷ put_bytes b
put_op (piece hash len) = 1 ∷ (hash ++ varint len)

unfoldable pub put_ops : List ContentOp → Bytes
put_ops ops = varint (length ops) ++ put_many put_op ops

get_lit : Bytes → Result (ContentOp × Bytes)
get_lit b = do (inline, rest) ← get_bytes b; ok (lit inline, rest)

get_piece : Bytes → Result (ContentOp × Bytes)
get_piece b = do
  (hash, rest) ← take_field b 32
  (len, rest) ← get_varint rest
  bail_if (ltb (2 ^ 32 - 1) len) piece_length_not_u32
  bail_if (len == 0) piece_length_zero
  ok (piece hash len, rest)

unfoldable pub get_op : Bytes → Result (ContentOp × Bytes)
unfolding get_lit get_piece
get_op [] = err truncated_op
get_op (tag ∷ b) = if tag == 0 then get_lit b else if tag == 1 then get_piece b else err unknown_op

unfoldable pub get_ops : Bytes → Result (List ContentOp × Bytes)
get_ops b = do (n_ops, rest) ← get_varint b; get_many get_op n_ops rest

-- The bytes behind the type tag. An integer or float is its 64-bit pattern.
unfoldable pub put_value : Value → Bytes
put_value (str s) = put_bytes s
put_value (int i) = to_le_bytes 8 i
put_value (float f) = to_le_bytes 8 f
put_value (bool true) = 1 ∷ []
put_value (bool false) = 0 ∷ []
put_value (uint i) = to_le_bytes 8 i
put_value (bytes b) = put_bytes b
put_value (timestamp_ns ns) = to_le_bytes 8 ns
put_value null = []

unfoldable pub put_attr : Bytes × Value → Bytes
unfolding type_tag
put_attr (key, value) = put_bytes key ++ (type_tag value ∷ put_value value)

unfoldable pub put_attrs : List (Bytes × Value) → Bytes
put_attrs attrs = varint (length attrs) ++ put_many put_attr attrs

get_word : (ℕ → Value) → Bytes → Result (Value × Bytes)
get_word make b = do (word, rest) ← take_field b 8; ok (make (from_le_bytes word), rest)

get_str : Bytes → Result (Value × Bytes)
get_str b = do (s, rest) ← get_bytes b; bail_if (not (is_utf8 s)) not_utf8; ok (str s, rest)

bool_of : Bytes → Result Value
bool_of [] = err invalid_boolean
bool_of (b ∷ bs) =
    if b == 0 then ok (bool false) else if b == 1 then ok (bool true) else err invalid_boolean

get_bool : Bytes → Result (Value × Bytes)
unfolding bool_of
get_bool b = do (field, rest) ← take_field b 1; value ← bool_of field; ok (value, rest)

get_binary : Bytes → Result (Value × Bytes)
get_binary b = do (field, rest) ← get_bytes b; ok (bytes field, rest)

-- `let v = match tag { ... }`
unfoldable pub get_value : ℕ → Bytes → Result (Value × Bytes)
unfolding get_word get_str get_bool get_binary
get_value tag b =
    if tag == 0
    then get_str b
    else if tag == 1
    then get_word int b
    else if tag == 2
    then get_word float b
    else if tag == 3
    then get_bool b
    else if tag == 4
    then get_word uint b
    else if tag == 5
    then get_binary b
    else if tag == 6
    then get_word timestamp_ns b
    else if tag == 7
    then ok (null, b)
    else err unknown_attr

get_tagged : Bytes → Result (Value × Bytes)
get_tagged [] = err truncated_attr
get_tagged (tag ∷ b) = get_value tag b

unfoldable pub get_attr : Bytes → Result ((Bytes × Value) × Bytes)
unfolding get_tagged
get_attr b = do
  (key, rest) ← get_bytes b
  bail_if (not (is_utf8 key)) not_utf8
  bail_if (is_empty_name key) attribute_name_empty
  (value, rest) ← get_tagged rest
  ok ((key, value), rest)

unfoldable pub get_attrs : Bytes → Result (List (Bytes × Value) × Bytes)
get_attrs b = do (n_attrs, rest) ← get_varint b; get_many get_attr n_attrs rest

unfoldable pub put_piece : Bytes × Bytes → Bytes
put_piece (hash, body) = hash ++ put_bytes body

unfoldable pub put_novel : List (Bytes × Bytes) → Bytes
put_novel novel = varint (length novel) ++ put_many put_piece novel

module _ (d : Digests) where
  unfoldable pub get_novel_piece : Bytes → Result ((Bytes × Bytes) × Bytes)
  get_novel_piece b = do
    (hash, rest) ← take_field b 32
    (body, rest) ← get_bytes rest
    bail_if (is_empty_name body) novel_piece_empty
    bail_if (not (bytes_eq (d.blake3 body) hash)) novel_piece_hash
    ok ((hash, body), rest)

  unfoldable pub get_novel : Bytes → Result (List (Bytes × Bytes) × Bytes)
  get_novel b = do (n_novel, rest) ← get_varint b; get_many get_novel_piece n_novel rest
