-- ===== src/Program/Defs.antt =====
-- Content programs, against the piece dictionary of a part.
use turndb.Shared.{
  ℕ, zero, suc, ◌+◌, ◌-◌, ◌*◌, ◌/◌, ◌%◌, ◌^◌, bit_and, Bool, false, not, ◌==◌, ◌||◌, ltb, leb,
  if◌then◌else◌, List, [], ◌∷◌, ◌++◌, length, take, drop, Option, none, some, Bytes, Result, ok,
  err, ◌>>=◌, ◌>>◌, bail_if, piece_outside_dictionary, piece_index, reserved_op,
  literal_past_program, piece_length_not_u32, piece_length_zero, piece_length_differs,
  trailing_bytes,
}
use turndb.Types.{ContentOp, lit, piece, is_empty_name}
use turndb.Varint.{varint, get_varint}
use turndb.Block.{Loc, decode_loc}

-- `OP_LIT`, `OP_PIECE` and `OP_ESCAPE_RESERVED`
abbrev pub op_lit : ℕ
op_lit = 0

abbrev pub op_piece : ℕ
op_piece = 1

abbrev pub op_escape_reserved : ℕ
op_escape_reserved = 0

-- `x << 1 | tag`: the shift leaves the lowest bit clear.
abbrev pub tagged_with : ℕ → ℕ → ℕ
tagged_with tag x = x * 2 % 2 ^ 64 + tag

-- `matches!(op, ContentOp::Lit(b) if b.is_empty())`
abbrev pub is_vacuous : ContentOp → Bool
is_vacuous (lit b) = is_empty_name b
is_vacuous (piece hash len) = false

unfoldable pub emitted : List ContentOp → List ContentOp
emitted [] = []
emitted (op ∷ ops) = let rest = emitted ops in if is_vacuous op then rest else op ∷ rest

-- A piece under the index that the dictionary gives its hash.
abbrev pub encode_piece : Option ℕ → ℕ → Result Bytes
encode_piece none len = err piece_outside_dictionary
encode_piece (some idx) len = ok (varint (tagged_with op_piece idx) ++ varint len)

unfoldable pub encode_op : (Bytes → Option ℕ) → ContentOp → Result Bytes
encode_op dict_index (lit b) =
    ok (if is_empty_name b then [] else varint (tagged_with op_lit (length b)) ++ b)
encode_op dict_index (piece hash len) = encode_piece (dict_index hash) len

unfoldable pub encode_ops : (Bytes → Option ℕ) → List ContentOp → Result Bytes
encode_ops dict_index [] = ok []
encode_ops dict_index (op ∷ ops) = do
  first ← encode_op dict_index op
  rest ← encode_ops dict_index ops
  ok (first ++ rest)

unfoldable pub encode_program : (Bytes → Option ℕ) → List ContentOp → Result Bytes
encode_program dict_index ops = do
  out ← encode_ops dict_index ops
  ok (varint (length (emitted ops)) ++ out)

-- `Part::piece` over the sections `pdict.loc` and `pdict.hash`.
unfoldable pub piece_at : Bytes → Bytes → ℕ → Result (Loc × Bytes)
piece_at locs hashes i = do
  bail_if (leb (length locs / 12) i || leb (length hashes / 32) i) piece_index
  loc ← decode_loc (drop (i * 12) locs)
  ok (loc, take 32 (drop (i * 32) hashes))

-- The two kinds of an op, behind its tag.
unfoldable pub decode_lit : ℕ → Bytes → Result (ContentOp × Bytes)
decode_lit len rest = do
  bail_if (ltb (length rest) len) literal_past_program
  ok (lit (take len rest), drop len rest)

unfoldable pub decode_piece : Bytes → Bytes → ℕ → Bytes → Result (ContentOp × Bytes)
decode_piece locs hashes idx rest = do
  (len, rest) ← get_varint rest
  bail_if (ltb (2 ^ 32 - 1) len) piece_length_not_u32
  bail_if (len == 0) piece_length_zero
  (location, hash) ← piece_at locs hashes idx
  bail_if (not (location.raw == len)) piece_length_differs
  ok (piece hash len, rest)

unfoldable pub decode_op : Bytes → Bytes → Bytes → Result (ContentOp × Bytes)
decode_op locs hashes rest = do
  (tagged, rest) ← get_varint rest
  bail_if (tagged == op_escape_reserved) reserved_op
  if bit_and tagged 1 == op_lit
      then decode_lit (tagged / 2) rest
      else decode_piece locs hashes (tagged / 2) rest

unfoldable pub decode_ops : Bytes → Bytes → ℕ → Bytes → Result (List ContentOp × Bytes)
decode_ops locs hashes zero rest = ok ([], rest)
decode_ops locs hashes (suc n) rest = do
  (op, rest) ← decode_op locs hashes rest
  (ops, rest) ← decode_ops locs hashes n rest
  ok (op ∷ ops, rest)

unfoldable pub decode_program : Bytes → Bytes → Bytes → Result (List ContentOp)
decode_program locs hashes program = do
  (n, rest) ← get_varint program
  (ops, rest) ← decode_ops locs hashes n rest
  bail_if (not (is_empty_name rest)) trailing_bytes
  ok ops
