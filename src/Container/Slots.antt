-- ===== src/Container/Slots.antt =====
-- A superblock read back from its slot, and the publication of the next one.
use turndb.Shared.{
  ℕ, zero, suc, ◌+◌, ◌-◌, ◌^◌, ◌<◌, ◌≡◌, refl, ap, ◌∙◌, true, false, ltb, [], ◌∷◌, ◌++◌,
  append_assoc, length, length-append, length-take, take, drop, drop_more, take-append_eq,
  drop-append_eq, drop-length-append, replicate, some, Bytes, bytes_eq_refl, ok, arith,
}
use turndb.Shared.Words.{to_le_bytes, from_le_bytes, length-to_le_bytes, from-to_le_bytes}
use turndb.Shared.Digests.{Digests}
use turndb.Container.Superblock.{
  Superblock, magic, container_draft_epoch, slot_len, sb_len, slice, all_zero, padding, body,
  fields_of, encode, decode, decode_authentic, validate_semantics,
}

all_zero-replicate : (n : ℕ) → all_zero (replicate n 0) ≡ true
unfolding all_zero
all_zero-replicate zero = refl
all_zero-replicate (suc n) = all_zero-replicate n

all_zero-padding : all_zero padding ≡ true
unfolding padding
all_zero-padding = all_zero-replicate (slot_len - sb_len)

-- What the field that starts at `from` holds, and where the next one starts.
next_field :
    (slot chunk rest : Bytes) (from to : ℕ)
    → drop from slot ≡ chunk ++ rest
    → length chunk + from ≡ to
    → (slice from to slot ≡ chunk) × (drop to slot ≡ rest)
next_field slot chunk rest from to h e = (
  rw h (take-append_eq chunk rest (to - from) (omega arith)),
  ap (λ (m : ℕ). drop m slot) {y = from + length chunk} (omega arith)
      ∙ drop_more from (length chunk) slot
      ∙ rw h (drop-length-append chunk rest),
)

word_field :
    (slot : Bytes) (width v : ℕ) {rest : Bytes} (from to : ℕ)
    → drop from slot ≡ to_le_bytes width v ++ rest
    → width + from ≡ to
    → v < 256 ^ width
    → (from_le_bytes (slice from to slot) ≡ v) × (drop to slot ≡ rest)
word_field slot width v {rest} from to h e fits =
    let (chunk, p) =
      next_field slot (to_le_bytes width v) rest from to h
        (omega (arith, length-to_le_bytes width v)) in
    (rw chunk (from-to_le_bytes width v fits), p)

-- What Rust's integer types say of a superblock.
pub record IsTyped (sb : Superblock) : Type 0 where
  pub seq : sb.seq < 2 ^ 64
  pub dir_off : sb.dir_off < 2 ^ 64
  pub dir_stored : sb.dir_stored < 2 ^ 32
  pub dir_raw : sb.dir_raw < 2 ^ 32
  pub n_entries : sb.n_entries < 2 ^ 32
  pub dir_xsum : sb.dir_xsum < 2 ^ 32
  pub tail : sb.tail < 2 ^ 64

module _ (d : Digests) (sb : Superblock) where
  abbrev last : Bytes
  last = sb.dir_codec ∷ container_draft_epoch ∷ 0 ∷ 0 ∷ []

  abbrev pub digest : Bytes
  digest = take 4 (d.blake3 (body sb))

  -- The fields of the slot from the sequence number on.
  abbrev behind_magic : Bytes
  behind_magic =
      to_le_bytes 8 sb.seq
      ++ (to_le_bytes 8 sb.dir_off
          ++ (to_le_bytes 4 sb.dir_stored
              ++ (to_le_bytes 4 sb.dir_raw
                  ++ (to_le_bytes 4 sb.n_entries
                      ++ (to_le_bytes 4 sb.dir_xsum
                          ++ (to_le_bytes 8 sb.tail ++ (last ++ (digest ++ padding))))))))

  encode_split : encode d sb ≡ magic ++ behind_magic
  unfolding encode
  encode_split = rw (ap (λ (t : Bytes). t ++ (digest ++ padding)) body_split) (simp append_assoc)
    where
      body_split :
          body sb
          ≡ magic
            ++ (to_le_bytes 8 sb.seq
                ++ (to_le_bytes 8 sb.dir_off
                    ++ (to_le_bytes 4 sb.dir_stored
                        ++ (to_le_bytes 4 sb.dir_raw
                            ++ (to_le_bytes 4 sb.n_entries
                                ++ (to_le_bytes 4 sb.dir_xsum
                                    ++ (to_le_bytes 8 sb.tail ++ last)))))))
      body_split = unfold body in refl

  pub length-body : length (body sb) ≡ 52
  unfolding body to_le_bytes
  length-body = refl

  pub length-digest : length digest ≡ 4
  length-digest = length-take 4 (d.blake3 (body sb)) (omega (arith, d.length-blake3 (body sb)))

  -- The slices of an encoded slot.
  encoded_fields :
      IsTyped sb
      → (fields_of (encode d sb) ≡ sb)
        × (drop 8 (encode d sb) ≡ behind_magic)
        × (drop 48 (encode d sb) ≡ last ++ (digest ++ padding))
  unfolding fields_of
  encoded_fields t =
      let slot = encode d sb in
      let (m, p0) = next_field slot magic behind_magic 0 8 encode_split (omega arith) in
      let (seq, p1) = word_field slot 8 sb.seq 8 16 p0 (omega arith) t.seq in
      let (dir_off, p2) = word_field slot 8 sb.dir_off 16 24 p1 (omega arith) t.dir_off in
      let (dir_stored, p3) = word_field slot 4 sb.dir_stored 24 28 p2 (omega arith) t.dir_stored in
      let (dir_raw, p4) = word_field slot 4 sb.dir_raw 28 32 p3 (omega arith) t.dir_raw in
      let (n_entries, p5) = word_field slot 4 sb.n_entries 32 36 p4 (omega arith) t.n_entries in
      let (dir_xsum, p6) = word_field slot 4 sb.dir_xsum 36 40 p5 (omega arith) t.dir_xsum in
      let (tail, p7) = word_field slot 8 sb.tail 40 48 p6 (omega arith) t.tail in
      (rw (seq, dir_off, dir_stored, dir_raw, n_entries, dir_xsum, tail, p7) refl, p0, p7)

  decode_authentic-encode :
      IsTyped sb → validate_semantics sb ≡ ok tt → decode_authentic d (encode d sb) ≡ ok (some sb)
  unfolding decode_authentic
  decode_authentic-encode t v =
      let (same, from_magic, from_codec) = encoded_fields t in
      let slot = encode d sb in
      let (identity, _) = next_field slot magic behind_magic 0 8 encode_split (omega arith) in
      let epoch : drop 49 slot ≡ container_draft_epoch ∷ 0 ∷ 0 ∷ (digest ++ padding) =
        drop_more 48 1 slot ∙ ap (λ (b : Bytes). drop 1 b) from_codec in
      let (_, p) =
        next_field slot (sb.dir_codec ∷ container_draft_epoch ∷ []) (0 ∷ 0 ∷ (digest ++ padding)) 48
          50 from_codec (omega arith) in
      let (reserved, q) = next_field slot (0 ∷ 0 ∷ []) (digest ++ padding) 50 52 p (omega arith) in
      let (_, behind) = next_field slot digest padding 52 56 q (omega (arith, length-digest)) in
      rw
        (
          identity,
          epoch,
          reserved,
          behind,
          same,
          v,
          all_zero-padding,
          bytes_eq_refl magic,
          bytes_eq_refl (0 ∷ 0 ∷ []),
        )
        refl

  long_enough : ltb (length (encode d sb)) sb_len ≡ false
  unfolding encode
  long_enough = ground (
    arith,
    length-append {0} (body sb) (digest ++ padding),
    length-append {0} digest padding,
    length-body,
    length-digest,
  )

  covered : slice 0 52 (encode d sb) ≡ body sb
  unfolding encode
  covered = take-append_eq (body sb) (digest ++ padding) 52 length-body

  digest_field : slice 52 56 (encode d sb) ≡ digest
  unfolding encode
  digest_field =
      rw (drop-append_eq (body sb) (digest ++ padding) 52 length-body)
        (take-append_eq digest padding 4 length-digest)

  -- A slot that was written whole reads back as the superblock it was made of, when that one's
  -- fields fit their integer types and it passes `validate_semantics`.
  pub decode-encode :
      IsTyped sb → validate_semantics sb ≡ ok tt → decode d (encode d sb) ≡ ok (some sb)
  unfolding decode
  decode-encode t v =
      rw (long_enough, covered, digest_field, bytes_eq_refl digest) (decode_authentic-encode t v)
