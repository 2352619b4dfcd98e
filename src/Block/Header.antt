-- ===== src/Block/Header.antt =====
-- Locations and block headers.
use turndb.Shared.{
  ℕ, ◌^◌, ◌≤◌, ◌<◌, ◌≡◌, refl, ap, ◌∙◌, Bool, false, not, ◌==◌, ◌&&◌, ltb, [], ◌∷◌, ◌++◌, length,
  take, length-append, length-take, Bytes, bytes_eq_refl, ok, arith,
}
use turndb.Shared.Words.{to_le_bytes, from_le_bytes, from-to_le_bytes}
use turndb.Shared.Digests.{Digests}
use turndb.Block.Defs.{
  Loc, encode_loc, decode_loc, BlockHdr, codec_stored, codec_zstd_dict, parse_hdr, header,
}

abbrev IsLoc : Loc → Type 0
IsLoc l = (l.block_id < 2 ^ 32) × (l.in_off < 2 ^ 32) × (l.raw < 2 ^ 32)

-- A location whose fields fit 32 bits is decoded from what `encode` wrote, whatever follows it.
pub decode-encode_loc :
    (l : Loc) (rest : Bytes) → IsLoc l → decode_loc (encode_loc l ++ rest) ≡ ok l
unfolding decode_loc encode_loc to_le_bytes
decode-encode_loc l rest (id, off, raw) =
    let long : ltb (length (encode_loc l ++ rest)) 12 ≡ false = ground arith in
    rw
      (
        long,
        from-to_le_bytes 4 l.block_id id,
        from-to_le_bytes 4 l.in_off off,
        from-to_le_bytes 4 l.raw raw,
      )
      refl

one_byte : (b : ℕ) → from_le_bytes (b ∷ []) ≡ b
unfolding from_le_bytes
one_byte b = omega arith

two_bytes : (b : Bytes) → 2 ≤ length b → (x : ℕ) × ((y : ℕ) × (take 2 b ≡ x ∷ y ∷ []))
two_bytes [] le = elim le [ ]
two_bytes (x ∷ []) le = let no : 1 ≤ 0 = omega arith in elim no [ ]
two_bytes (x ∷ y ∷ b) le = (x, (y, refl))

-- What the guards of a reader ask of a block.
pub record IsBlock (block_id codec : ℕ) (raw payload : Bytes) (seg_has_dict : Bool) : Type 0 where
  pub id : block_id < 2 ^ 32
  pub known : codec ≤ codec_zstd_dict
  pub live : 0 < length raw
  pub fits : length raw < 2 ^ 32
  pub shrunk : length payload ≤ length raw
  pub verbatim : (codec == codec_stored && not (length raw == length payload)) ≡ false
  pub dictionary : (codec == codec_zstd_dict && not seg_has_dict) ≡ false

module _ (d : Digests) (block_id codec : ℕ) (raw payload : Bytes) (seg_has_dict : Bool) where
  -- The header that a reader finds.
  abbrev pub hdr_of : BlockHdr
  hdr_of = record {
    block_id = block_id;
    codec = codec;
    raw = length raw;
    stored = length payload;
    r16 = take 2 (d.blake3 raw);
  }

  -- The header as its sixteen bytes.
  laid_out : ℕ → ℕ → Bytes
  laid_out x y =
      0xa5
      ∷ codec
      ∷ (to_le_bytes 4 (length raw)
          ++ (to_le_bytes 4 (length payload) ++ (x ∷ y ∷ to_le_bytes 4 block_id)))

  header-laid_out :
      (x y : ℕ)
      → take 2 (d.blake3 raw) ≡ x ∷ y ∷ []
      → header d block_id codec raw payload ≡ laid_out x y
  unfolding header laid_out
  header-laid_out x y e = rw e refl

  parse_hdr-laid_out :
      (x y : ℕ) (rest : Bytes)
      → take 2 (d.blake3 raw) ≡ x ∷ y ∷ []
      → IsBlock block_id codec raw payload seg_has_dict
      → parse_hdr (laid_out x y ++ rest) seg_has_dict ≡ ok hdr_of
  unfolding parse_hdr laid_out to_le_bytes
  parse_hdr-laid_out x y rest e h =
      let long : ltb (length (laid_out x y ++ rest)) 16 ≡ false = ground arith in
      let one : from_le_bytes (codec ∷ []) ≡ codec = one_byte codec in
      let known : ltb codec_zstd_dict codec ≡ false = ground (arith, h.known) in
      let live : (length raw == 0) ≡ false = ground (arith, h.live) in
      let shrunk : ltb (length raw) (length payload) ≡ false = ground (arith, h.shrunk) in
      rw
        (
          long,
          bytes_eq_refl (0xa5 ∷ []),
          one,
          known,
          from-to_le_bytes 4 (length raw) h.fits,
          from-to_le_bytes 4 (length payload) (omega (arith, h.fits, h.shrunk)),
          live,
          shrunk,
          h.verbatim,
          h.dictionary,
          from-to_le_bytes 4 block_id h.id,
          e,
        )
        refl

  -- The header is read back, whatever follows it.
  pub parse_hdr-header :
      (rest : Bytes)
      → IsBlock block_id codec raw payload seg_has_dict
      → parse_hdr (header d block_id codec raw payload ++ rest) seg_has_dict ≡ ok hdr_of
  parse_hdr-header rest h =
      let (x, (y, e)) = two_bytes (d.blake3 raw) (omega (arith, d.length-blake3 raw)) in
      ap (λ (b : Bytes). parse_hdr (b ++ rest) seg_has_dict) (header-laid_out x y e)
      ∙ parse_hdr-laid_out x y rest e h

  pub length-header : length (header d block_id codec raw payload) ≡ 16
  unfolding header to_le_bytes
  length-header = omega (
    arith,
    length-append {0} (take 2 (d.blake3 raw)) (to_le_bytes 4 block_id),
    length-take 2 (d.blake3 raw) (omega (arith, d.length-blake3 raw)),
  )
