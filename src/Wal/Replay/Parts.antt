-- ===== src/Wal/Replay/Parts.antt =====
-- The fields of a frame that stands at the front of a slice, as the replay loop reads them.
use turndb.Shared.{
  ℕ, ◌+◌, ◌-◌, ◌^◌, ◌≤◌, ◌<◌, ◌≡◌, refl, ap, ◌∙◌, [], ◌∷◌, ◌++◌, append_assoc, length,
  length-append, take, drop, take-append_eq, drop-append_eq, take-append_ge, take-length-append,
  Bytes, arith,
}
use turndb.Shared.Words.{to_le_bytes, from_le_bytes, length-to_le_bytes, from-to_le_bytes}
use turndb.Shared.Digests.{Digests}
use turndb.Wal.Frame.{header, frame_bytes, length-header, length-frame_bytes}

-- The parts of a frame that stands at the front of a slice.
module _ (d : Digests) (tag seq : ℕ) (payload more : Bytes) where
  abbrev pub covered : Bytes
  covered = header tag seq payload ++ payload

  abbrev pub crc : Bytes
  crc = to_le_bytes 4 (d.crc32 covered)

  abbrev pub rest : Bytes
  rest = frame_bytes d tag seq payload ++ more

  pub length-covered : length covered ≡ 13 + length payload
  length-covered =
      omega
        (arith, length-append {0} (header tag seq payload) payload, length-header tag seq payload)

  pub length-whole : length rest ≡ 17 + length payload + length more
  length-whole = omega (
    arith,
    length-append {0} (frame_bytes d tag seq payload) more,
    length-frame_bytes d tag seq payload,
  )

  by_checksum : rest ≡ covered ++ (crc ++ more)
  unfolding frame_bytes
  by_checksum = append_assoc covered crc more

  pub take-covered : take (13 + length payload) rest ≡ covered
  take-covered = rw by_checksum (take-append_eq covered (crc ++ more) _ length-covered)

  pub take-crc : take 4 (drop (13 + length payload) rest) ≡ crc
  take-crc =
      rw (by_checksum, drop-append_eq covered (crc ++ more) _ length-covered)
        (take-append_eq crc more 4 (length-to_le_bytes 4 (d.crc32 covered)))

  pub take-payload : take (length payload) (drop 13 rest) ≡ payload
  take-payload =
      rw
        (
          by_checksum,
          append_assoc (header tag seq payload) payload (crc ++ more),
          drop-append_eq (header tag seq payload) (payload ++ (crc ++ more)) 13
              (length-header tag seq payload),
        )
        (take-length-append payload (crc ++ more))

  pub drop-frame : drop (17 + length payload) rest ≡ more
  drop-frame =
      drop-append_eq (frame_bytes d tag seq payload) more (17 + length payload)
        (omega (arith, length-frame_bytes d tag seq payload))

  -- What stands behind the tag.
  abbrev pub fields : Bytes
  fields = (((to_le_bytes 8 seq ++ to_le_bytes 4 (length payload)) ++ payload) ++ crc) ++ more

  pub rest-cons : rest ≡ tag ∷ fields
  unfolding frame_bytes header
  rest-cons = refl

  fields_split :
      fields ≡ to_le_bytes 8 seq ++ (to_le_bytes 4 (length payload) ++ (payload ++ (crc ++ more)))
  fields_split = simp append_assoc

  pub seq_field : seq < 2 ^ 64 → from_le_bytes (take 8 fields) ≡ seq
  seq_field h =
      rw
        (
          fields_split,
          take-append_eq (to_le_bytes 8 seq)
              (to_le_bytes 4 (length payload) ++ (payload ++ (crc ++ more))) 8
              (length-to_le_bytes 8 seq),
        )
        (from-to_le_bytes 8 seq h)

  pub len_field : length payload < 2 ^ 32 → from_le_bytes (take 4 (drop 8 fields)) ≡ length payload
  len_field h =
      rw
        (
          fields_split,
          drop-append_eq (to_le_bytes 8 seq)
              (to_le_bytes 4 (length payload) ++ (payload ++ (crc ++ more))) 8
              (length-to_le_bytes 8 seq),
          take-append_eq (to_le_bytes 4 (length payload)) (payload ++ (crc ++ more)) 4
              (length-to_le_bytes 4 (length payload)),
        )
        (from-to_le_bytes 4 (length payload) h)

  pub crc_field : from_le_bytes (take 4 (drop (13 + length payload) rest)) ≡ d.crc32 covered
  crc_field = rw take-crc (from-to_le_bytes 4 (d.crc32 covered) (d.crc32-lt covered))

-- A frame that is cut off behind its header.
module _ (d : Digests) (tag seq : ℕ) (payload : Bytes) (n : ℕ) where
  abbrev behind : Bytes
  behind = payload ++ crc d tag seq payload []

  abbrev pub cut_fields : Bytes
  cut_fields = to_le_bytes 8 seq ++ (to_le_bytes 4 (length payload) ++ take (n - 13) behind)

  frame_split :
      frame_bytes d tag seq payload
      ≡ (tag ∷ (to_le_bytes 8 seq ++ to_le_bytes 4 (length payload))) ++ behind
  unfolding frame_bytes header
  frame_split =
      append_assoc (tag ∷ (to_le_bytes 8 seq ++ to_le_bytes 4 (length payload))) payload
        (crc d tag seq payload [])

  pub cut_frame : 13 ≤ n → take n (frame_bytes d tag seq payload) ≡ tag ∷ cut_fields
  cut_frame h = rw frame_split (
      take-append_ge head behind n (omega (arith, length-head))
      ∙ ap (λ (m : ℕ). head ++ take (n - m) behind) length-head
      ∙ ap (λ (t : Bytes). tag ∷ t)
          (append_assoc (to_le_bytes 8 seq) (to_le_bytes 4 (length payload))
            (take (n - 13) behind)))
    where
      head : Bytes
      head = tag ∷ (to_le_bytes 8 seq ++ to_le_bytes 4 (length payload))

      length-head : length head ≡ 13
      length-head = unfold header in length-header tag seq payload

  pub cut_len_field :
      length payload < 2 ^ 32 → from_le_bytes (take 4 (drop 8 cut_fields)) ≡ length payload
  cut_len_field h =
      rw
        (
          drop-append_eq (to_le_bytes 8 seq)
              (to_le_bytes 4 (length payload) ++ take (n - 13) behind) 8 (length-to_le_bytes 8 seq),
          take-append_eq (to_le_bytes 4 (length payload)) (take (n - 13) behind) 4
              (length-to_le_bytes 4 (length payload)),
        )
        (from-to_le_bytes 4 (length payload) h)
