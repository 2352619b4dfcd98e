-- ===== src/Program/RoundTrip.antt =====
-- Programs from `encode_program` to `decode_program`.
use turndb.Shared.{
  ℕ, ◌-◌, ◌/◌, ◌^◌, ◌<◌, bit_and, ◌≡◌, refl, sym, ap, ◌∙◌, true, false, ◌==◌, ltb, List, [], ◌∷◌,
  ◌++◌, append-nil, append_assoc, length, length-append, take-length-append, drop-length-append,
  Option, some, All, Bytes, ok, arith,
}
use turndb.Shared.Bits.{bit_and_mask}
use turndb.Types.{ContentOp, lit, piece}
use turndb.Varint.{varint, get-put_varint}
use turndb.Block.{Loc}
use turndb.Program.Defs.{
  op_lit, tagged_with, emitted, encode_piece, encode_op, encode_ops, encode_program, piece_at,
  decode_lit, decode_piece, decode_op, decode_ops, decode_program,
}

-- The dictionary has the op's piece with its length, and the op fits the format.
unfoldable pub IsListed : (Bytes → Option ℕ) → Bytes → Bytes → ContentOp → Type 0
IsListed dict_index locs hashes (lit b) = length b < 2 ^ 63
IsListed dict_index locs hashes (piece hash len) =
    (idx : ℕ) × ((loc : Loc) × ((dict_index hash ≡ some idx)
        × (idx < 2 ^ 32)
        × (piece_at locs hashes idx ≡ ok (loc, hash))
        × (loc.raw ≡ len)
        × (0 < len)
        × (len < 2 ^ 32)))

module _ (dict_index : Bytes → Option ℕ) (locs hashes : Bytes) where
  decode_op-lit :
      (x : ℕ) (b rest : Bytes)
      → length (x ∷ b) < 2 ^ 63
      → decode_op locs hashes ((varint (tagged_with op_lit (length (x ∷ b))) ++ (x ∷ b)) ++ rest)
        ≡ ok (lit (x ∷ b), rest)
  unfolding decode_op decode_lit
  decode_op-lit x b rest small =
      let word = x ∷ b in
      let tag : ℕ = tagged_with op_lit (length word) in
      let real : (tag == 0) ≡ false = ground (arith, small) in
      let even : (bit_and tag 1 == 0) ≡ true = ground (arith, bit_and_mask 1 tag) in
      let half : tag / 2 ≡ length word = omega (arith, small) in
      let inside : ltb (length (word ++ rest)) (length word) ≡ false =
        ground (arith, length-append {0} word rest) in
      rw
        (
          append_assoc (varint tag) word rest,
          get-put_varint tag (word ++ rest) (omega (arith, small)),
          real,
          even,
          half,
          inside,
          take-length-append word rest,
          drop-length-append word rest,
        )
        refl

  decode_op-piece :
      (hash rest : Bytes) (len idx : ℕ) (loc : Loc)
      → idx < 2 ^ 32
      → piece_at locs hashes idx ≡ ok (loc, hash)
      → loc.raw ≡ len
      → 0 < len
      → len < 2 ^ 32
      → decode_op locs hashes ((varint (tagged_with 1 idx) ++ varint len) ++ rest)
        ≡ ok (piece hash len, rest)
  unfolding decode_op decode_piece
  decode_op-piece hash rest len idx loc small there same positive short =
      let tag : ℕ = tagged_with 1 idx in
      let real : (tag == 0) ≡ false = ground arith in
      let odd : (bit_and tag 1 == 0) ≡ false = ground (arith, bit_and_mask 1 tag) in
      let half : tag / 2 ≡ idx = omega (arith, small) in
      let fits : ltb (2 ^ 32 - 1) len ≡ false = ground arith in
      let live : (len == 0) ≡ false = ground arith in
      let agrees : (loc.raw == len) ≡ true = ground arith in
      rw
        (
          append_assoc (varint tag) (varint len) rest,
          get-put_varint tag (varint len ++ rest) (omega (arith, small)),
          real,
          odd,
          half,
          get-put_varint len rest (omega arith),
          fits,
          live,
          there,
          agrees,
        )
        refl

  -- The bytes of some ops are read back as those of them that are written.
  Reads : List ContentOp → Bytes → Type 0
  Reads ops out =
      (encode_ops dict_index ops ≡ ok out)
      × ((rest : Bytes)
          → decode_ops locs hashes (length (emitted ops)) (out ++ rest) ≡ ok (emitted ops, rest))

  Reads-next :
      (op : ContentOp) (ops : List ContentOp) (first out : Bytes)
      → emitted (op ∷ ops) ≡ op ∷ emitted ops
      → encode_op dict_index op ≡ ok first
      → ((rest : Bytes) → decode_op locs hashes (first ++ rest) ≡ ok (op, rest))
      → Reads ops out
      → Reads (op ∷ ops) (first ++ out)
  unfolding Reads encode_ops decode_ops
  Reads-next op ops first out kept written back (done, later) = (
    rw (written, done) refl,
    λ rest. rw (kept, append_assoc first out rest, back (out ++ rest), later rest) refl,
  )

  ops-Reads :
      (ops : List ContentOp)
      → All (IsListed dict_index locs hashes) ops
      → (out : Bytes) × Reads ops out
  unfolding Reads IsListed encode_ops encode_op decode_ops emitted
  ops-Reads [] listed = ([], (refl, λ rest. refl))
  ops-Reads (lit [] ∷ ops) listed =
      let (out, (done, later)) = ops-Reads ops listed.1 in (out, (rw done refl, later))
  ops-Reads (lit (x ∷ b) ∷ ops) listed =
      let (out, reads) = ops-Reads ops listed.1 in
      (
        _,
        Reads-next (lit (x ∷ b)) ops (varint (tagged_with op_lit (length (x ∷ b))) ++ (x ∷ b)) out
            refl refl (λ rest. decode_op-lit x b rest listed.0) reads,
      )
  ops-Reads (piece hash len ∷ ops) listed =
      let (out, reads) = ops-Reads ops listed.1 in
      let (idx, (loc, (known, small, there, same, positive, short))) = listed.0 in
      (
        _,
        Reads-next (piece hash len) ops (varint (tagged_with 1 idx) ++ varint len) out refl
            (ap (λ (o : Option ℕ). encode_piece o len) known)
            (λ rest. decode_op-piece hash rest len idx loc small there same positive short) reads,
      )

-- Ops that fit the format, and whose pieces the dictionary has under the index that the builder
-- knows, are encoded, when fewer than 2^64 of them are not empty literals; the program is decoded to
-- the ops, without the empty literals among them.
pub decode-encode_program :
    (dict_index : Bytes → Option ℕ) (locs hashes : Bytes) (ops : List ContentOp)
    → All (IsListed dict_index locs hashes) ops
    → length (emitted ops) < 2 ^ 64
    → (b : Bytes) × ((encode_program dict_index ops ≡ ok b)
        × (decode_program locs hashes b ≡ ok (emitted ops)))
unfolding encode_program decode_program Reads
decode-encode_program dict_index locs hashes ops listed few =
    let (out, (done, back)) = ops-Reads dict_index locs hashes ops listed in
    let read : decode_ops locs hashes (length (emitted ops)) out ≡ ok (emitted ops, []) =
      ap (λ (b : Bytes). decode_ops locs hashes (length (emitted ops)) b) (sym (append-nil out))
      ∙ back [] in
    (
      varint (length (emitted ops)) ++ out,
      (rw done refl, rw (get-put_varint (length (emitted ops)) out few, read) refl),
    )
