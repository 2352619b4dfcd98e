-- ===== src/Block/Frame.antt =====
-- Whole frames and torn ones.
use turndb.Shared.{
  ℕ, ◌+◌, ◌-◌, ◌^◌, ◌≤◌, ◌<◌, ◌≡◌, refl, sym, ap, ◌∙◌, inl, inr, Bool, true, false, ◌==◌, ◌||◌, ltb,
  if◌then◌else◌, block_header_truncated, block_truncated, [], ◌++◌, length, take, length-append,
  length-take, take-append_eq, take-append_ge, drop-append_eq, append_assoc, append-nil, Bytes,
  bytes_eq_refl, ok, err, arith, Bool-cases,
}
use turndb.Shared.Digests.{Digests}
use turndb.Block.Defs.{block_hdr_len, parse_hdr, xsum, header, encode_block, verify_frame_bytes}
use turndb.Block.Header.{IsBlock, hdr_of, parse_hdr-header, length-header}

module _ (d : Digests) (block_id codec : ℕ) (raw payload : Bytes) (seg_has_dict : Bool) where
  abbrev prefix : Bytes
  prefix = header d block_id codec raw payload ++ payload

  -- The frame is the header, the payload and the checksum of both.
  abbrev pub frame : Bytes
  frame = prefix ++ xsum d prefix

  length-prefix : length prefix ≡ 16 + length payload
  length-prefix =
      length-append (header d block_id codec raw payload) payload
      ∙ omega (arith, length-header d block_id codec raw payload seg_has_dict)

  pub length-frame : length frame ≡ 20 + length payload
  unfolding xsum
  length-frame =
      length-append {0} prefix (xsum d prefix)
      ∙ omega (
        arith,
        length-prefix,
        length-take 4 (d.blake3 prefix) (omega (arith, d.length-blake3 prefix)),
      )

  pub encode_block-frame :
      IsBlock block_id codec raw payload seg_has_dict
      → encode_block d block_id codec raw payload ≡ ok frame
  unfolding encode_block
  encode_block-frame h =
      let live : (length raw == 0) ≡ false = ground (arith, h.live) in
      let small : (ltb (2 ^ 32 - 1) (length raw) || ltb (2 ^ 32 - 1) (length payload)) ≡ false =
        ground (arith, h.fits, h.shrunk) in
      rw (live, small) refl

  -- A frame read to any length from the header on.
  parse_hdr-take :
      (n : ℕ)
      → 16 ≤ n
      → IsBlock block_id codec raw payload seg_has_dict
      → parse_hdr (take n frame) seg_has_dict
        ≡ ok (hdr_of d block_id codec raw payload seg_has_dict)
  parse_hdr-take n le h =
      let head = header d block_id codec raw payload in
      ap (λ (b : Bytes). parse_hdr (take n b) seg_has_dict)
        (append_assoc head payload (xsum d prefix))
      ∙ ap (λ (b : Bytes). parse_hdr b seg_has_dict)
          (take-append_ge head (payload ++ xsum d prefix) n
            (omega (arith, length-header d block_id codec raw payload seg_has_dict)))
      ∙ parse_hdr-header d block_id codec raw payload seg_has_dict
          (take (n - length head) (payload ++ xsum d prefix)) h

-- A frame that `encode` writes of a block is verified, and gives back the block's header; the
-- codec is known, the payload is not longer than the raw bytes, of the same length when it is
-- stored verbatim, and only a segment with a dictionary has it coded by one.
pub verify_frame_bytes-encode_block :
    (d : Digests) (block_id codec : ℕ) (raw payload : Bytes) (seg_has_dict : Bool)
    → IsBlock block_id codec raw payload seg_has_dict
    → (b : Bytes) × ((encode_block d block_id codec raw payload ≡ ok b)
        × (verify_frame_bytes d b seg_has_dict
            ≡ ok (hdr_of d block_id codec raw payload seg_has_dict)))
unfolding verify_frame_bytes xsum
verify_frame_bytes-encode_block d block_id codec raw payload seg_has_dict h =
    let whole = frame d block_id codec raw payload seg_has_dict in
    let front = prefix d block_id codec raw payload seg_has_dict in
    let sum = xsum d front in
    let size = length-prefix d block_id codec raw payload seg_has_dict in
    let sum_size : length sum ≡ 4 =
      length-take 4 (d.blake3 front) (omega (arith, d.length-blake3 front)) in
    let total = length-append {0} front sum in
    let parsed : parse_hdr whole seg_has_dict
        ≡ ok (hdr_of d block_id codec raw payload seg_has_dict) =
      ap (λ (b : Bytes). parse_hdr b seg_has_dict)
        (append_assoc (header d block_id codec raw payload) payload sum)
      ∙ parse_hdr-header d block_id codec raw payload seg_has_dict (payload ++ sum) h in
    let all : take 4 sum ≡ sum =
      ap (λ (t : Bytes). take 4 t) (sym (append-nil sum)) ∙ take-append_eq sum [] 4 sum_size in
    let end : ℕ = 16 + 4 + length payload - 4 in
    let long : ltb (length whole) (16 + 4 + length payload) ≡ false =
      ground (arith, total, size, sum_size) in
    (
      whole,
      (
        encode_block-frame d block_id codec raw payload seg_has_dict h,
        rw
            (
              parsed,
              long,
              take-append_eq front sum end (omega (arith, size)),
              drop-append_eq front sum end (omega (arith, size)),
              all,
              bytes_eq_refl sum,
            )
            refl,
      ),
    )

parse_hdr_short :
    (b : Bytes) (seg_has_dict : Bool)
    → ltb (length b) 16 ≡ true
    → parse_hdr b seg_has_dict ≡ err block_header_truncated
unfolding parse_hdr
parse_hdr_short b seg_has_dict h = rw h refl

-- A proper prefix of a frame is refused, as truncated in its header or behind it.
pub verify_frame_bytes_torn :
    (d : Digests) (block_id codec : ℕ) (raw payload : Bytes) (seg_has_dict : Bool) (n : ℕ)
    {b : Bytes}
    → IsBlock block_id codec raw payload seg_has_dict
    → encode_block d block_id codec raw payload ≡ ok b
    → n < length b
    → verify_frame_bytes d (take n b) seg_has_dict
      ≡ err (if ltb n block_hdr_len then block_header_truncated else block_truncated)
unfolding verify_frame_bytes xsum
verify_frame_bytes_torn d block_id codec raw payload seg_has_dict n {b} h written lt =
    let same : b ≡ frame d block_id codec raw payload seg_has_dict =
      ok-inj b _ (sym written ∙ encode_block-frame d block_id codec raw payload seg_has_dict h) in
    let size = length-take n b (omega arith) in
    elim (Bool-cases (ltb n 16)) [
      | inl short ↦
          let header_cut : ltb (length (take n b)) 16 ≡ true = ground (arith, size) in
          rw (parse_hdr_short (take n b) seg_has_dict header_cut, short) refl
      | inr more ↦
          let parsed =
            ap (λ (x : Bytes). parse_hdr (take n x) seg_has_dict) same
            ∙ parse_hdr-take d block_id codec raw payload seg_has_dict n (ground arith) h in
          let frame_size =
            ap (λ (x : Bytes). length x) same
            ∙ length-frame d block_id codec raw payload seg_has_dict in
          let cut : ltb (length (take n b)) (16 + 4 + length payload) ≡ true =
            ground (arith, size, frame_size) in
          rw (parsed, cut, more) refl
    ]
  where
    ok-inj : (x y : Bytes) → ok x ≡ ok y → x ≡ y
    ok-inj x y e = cc
