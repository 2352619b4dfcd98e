-- ===== src/Tests/Programs.antt =====
-- A program of two literals, one of them empty, and a piece.
use turndb.Shared.{ℕ, ◌≡◌, refl, List, [], ◌∷◌, All, replicate, Option, some, Bytes, ok, arith}
use turndb.Shared.Words.{from_le_bytes}
use turndb.Types.{ContentOp, lit, piece}
use turndb.Block.{decode_loc}
use turndb.Program.{emitted, encode_program, decode_program, piece_at}
use turndb.Program.RoundTrip.{IsListed, decode-encode_program}

abbrev one_hash : Bytes
one_hash = replicate 32 5

abbrev one_loc : Bytes
one_loc = 0 ∷ 0 ∷ 0 ∷ 0 ∷ 0 ∷ 0 ∷ 0 ∷ 0 ∷ 20 ∷ 0 ∷ 0 ∷ 0 ∷ []

abbrev one_piece : Bytes → Option ℕ
one_piece hash = some 0

abbrev three_ops : List ContentOp
three_ops = lit (1 ∷ 2 ∷ []) ∷ lit [] ∷ piece one_hash 20 ∷ []

three_ops-IsListed : All (IsListed one_piece one_loc one_hash) three_ops
unfolding IsListed piece_at decode_loc from_le_bytes
three_ops-IsListed = (
  omega arith,
  (
    omega arith,
    (
      (
        0,
        (
          record { block_id = 0; in_off = 0; raw = 20 },
          (refl, omega arith, refl, refl, omega arith, omega arith),
        ),
      ),
      tt,
    ),
  ),
)

decode-encode_program_example :
    (b : Bytes) × ((encode_program one_piece three_ops ≡ ok b)
      × (decode_program one_loc one_hash b ≡ ok (lit (1 ∷ 2 ∷ []) ∷ piece one_hash 20 ∷ [])))
unfolding emitted
decode-encode_program_example =
    decode-encode_program one_piece one_loc one_hash three_ops three_ops-IsListed (omega arith)
