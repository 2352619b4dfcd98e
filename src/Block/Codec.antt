-- ===== src/Block/Codec.antt =====
-- src/fold/codec.rs: the codec of a block or of a directory, over the zstd library.
use turndb.Shared.{
  ℕ, ◌≤◌, ◌<◌, ◌≡◌, not, ◌==◌, leb, if◌then◌else◌, length, Option, none, some, Bytes, Result, ok,
  err, ◌>>=◌, ◌>>◌, bail_if, stored_length_differs, dictionary_missing, decoded_length_differs,
  unknown_block_codec, OnOk, >>=-OnOk, OnOk-ok, refl, ==_refl, Bool-cases, inl, inr, arith,
}
use turndb.Block.Defs.{codec_stored, codec_zstd_dict}

-- The module `z` over the zstd library: `compress` at a level, and `decompress_into` with the
-- length of its buffer. A frame is never empty, and it is decompressed with the dictionary that it was compressed with.
pub record Zstd : Type 0 where
  pub compress : Bytes → Option Bytes → ℕ → Result Bytes
  pub decompress_into : Bytes → Option Bytes → ℕ → Result Bytes
  pub compress-nonempty :
      (raw : Bytes) (dict : Option Bytes) (level : ℕ) {payload : Bytes}
      → compress raw dict level ≡ ok payload
      → 0 < length payload
  pub decompress-compress :
      (raw : Bytes) (dict : Option Bytes) (level : ℕ) {payload : Bytes}
      → compress raw dict level ≡ ok payload
      → decompress_into payload dict (length raw) ≡ ok raw

-- `CODEC_ZSTD`
abbrev pub codec_zstd : ℕ
codec_zstd = 1

abbrev pub tag_for : Option Bytes → ℕ
tag_for none = codec_zstd
tag_for (some dict) = codec_zstd_dict

abbrev pub dictionary : ℕ → Option Bytes → Result (Option Bytes)
dictionary codec none = if codec == codec_zstd_dict then err dictionary_missing else ok none
dictionary codec (some dict) = if codec == codec_zstd_dict then ok (some dict) else ok none

module _ (z : Zstd) where
  -- The codec's tag, and the payload.
  unfoldable pub encode : Bytes → Option Bytes → ℕ → Result (ℕ × Bytes)
  encode raw dict level = do
    compressed ← z.compress raw dict level
    if leb (length raw) (length compressed)
        then ok (codec_stored, raw)
        else ok (tag_for dict, compressed)

  decode_stored : Bytes → ℕ → Result Bytes
  decode_stored payload raw_len = do
    bail_if (not (length payload == raw_len)) stored_length_differs
    ok payload

  decode_zstd : ℕ → Bytes → ℕ → Option Bytes → Result Bytes
  decode_zstd codec payload raw_len dict = do
    used ← dictionary codec dict
    out ← z.decompress_into payload used raw_len
    bail_if (not (length out == raw_len)) decoded_length_differs
    ok out

  unfoldable pub decode : ℕ → Bytes → ℕ → Option Bytes → Result Bytes
  unfolding decode_stored decode_zstd
  decode codec payload raw_len dict =
      if codec == codec_stored
      then decode_stored payload raw_len
      else if leb codec codec_zstd_dict
      then decode_zstd codec payload raw_len dict
      else err unknown_block_codec

-- What `encode` returns of `raw`.
abbrev Encodes : Zstd → Bytes → Option Bytes → ℕ × Bytes → Type 0
Encodes z raw dict (codec, payload) =
    (decode z codec payload (length raw) dict ≡ ok raw)
    × (length payload ≤ length raw)
    × (0 < length raw → 0 < length payload)
    × (codec ≤ tag_for dict)
    × (codec ≡ 0 → length payload ≡ length raw)

decode-compressed :
    (z : Zstd) (raw : Bytes) (dict : Option Bytes) (payload : Bytes)
    → z.decompress_into payload dict (length raw) ≡ ok raw
    → decode z (tag_for dict) payload (length raw) dict ≡ ok raw
unfolding decode
decode-compressed z raw none payload h = rw (h, ==_refl (length raw)) refl
decode-compressed z raw (some dict) payload h = rw (h, ==_refl (length raw)) refl

decode-verbatim :
    (z : Zstd) (raw : Bytes) (dict : Option Bytes)
    → decode z codec_stored raw (length raw) dict ≡ ok raw
unfolding decode
decode-verbatim z raw dict = rw (==_refl (length raw)) refl

tag_for-pos : (dict : Option Bytes) → 1 ≤ tag_for dict
tag_for-pos none = omega arith
tag_for-pos (some dict) = omega arith

encode-Encodes :
    (z : Zstd) (raw : Bytes) (dict : Option Bytes) (level : ℕ)
    → OnOk (Encodes z raw dict) (encode z raw dict level)
unfolding encode
encode-Encodes z raw dict level = >>=-OnOk _ (z.compress raw dict level) _ λ compressed done.
    elim (Bool-cases (leb (length raw) (length compressed))) [
      | inl e ↦ rw e (
        decode-verbatim z raw dict,
        omega arith,
        λ live. live,
        omega (arith, tag_for-pos dict),
        λ _. refl,
      )
      | inr e ↦ rw e (
        decode-compressed z raw dict compressed (z.decompress-compress raw dict level done),
        ground arith,
        λ live. z.compress-nonempty raw dict level done,
        omega arith,
        λ none_used. absurd (omega (arith, tag_for-pos dict)),
      )
    ]

-- `decode` gives back what `encode` was given, under the same dictionary; the payload is not longer
-- than the bytes it encodes, nor empty when they are not, and as long when it is stored verbatim;
-- the codec is that of the dictionary at most.
pub decode-encode_payload :
    (z : Zstd) (raw : Bytes) (dict : Option Bytes) (level : ℕ) {codec : ℕ} {payload : Bytes}
    → encode z raw dict level ≡ ok (codec, payload)
    → (decode z codec payload (length raw) dict ≡ ok raw)
      × (length payload ≤ length raw)
      × (0 < length raw → 0 < length payload)
      × (codec ≤ tag_for dict)
      × (codec ≡ 0 → length payload ≡ length raw)
decode-encode_payload z raw dict level h =
    OnOk-ok (Encodes z raw dict) _ (encode-Encodes z raw dict level) h
