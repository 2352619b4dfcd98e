-- ===== src/Container/Directory/EncodedLength.antt =====
-- The length that `encoded_directory_len` computes in front of the encoding.
use turndb.Shared.{
  ℕ, ◌+◌, ◌≤◌, ◌≡◌, ap, ◌∙◌, ltb, List, [], ◌∷◌, ◌++◌, length, length-append, All, Bytes, Result,
  ok, arith, OnOk, >>=-OnOk, OnOk-ok, bail_if-OnOk,
}
use turndb.Shared.Words.{to_le_bytes, length-to_le_bytes}
use turndb.Shared.Bits.{IsU64}
use turndb.Varint.{varint, varint_len, varint_len-length}
use turndb.Container.Superblock.{max_dir_raw}
use turndb.Container.Directory.Encode.{
  encode_directory, Extent, Member, Members, FreeExtent, grow, extents_len, members_len, free_len,
  encoded_directory_len, put_extents, put_member, put_members, put_free, directory_bytes,
}

-- What Rust's integer types say of a directory.
abbrev pub IsU64Extent : Extent → Type 0
IsU64Extent (off, len) = IsU64 off × IsU64 len

abbrev pub IsTypedEntry : Bytes × Member → Type 0
IsTypedEntry (name, m) = IsU64 (length name) × IsU64 (length m.extents) × All IsU64Extent m.extents

abbrev pub IsTypedFree : FreeExtent → Type 0
IsTypedFree (off, len, freed_seq) = IsU64 off × IsU64 len × IsU64 freed_seq

grow-ok : (len more : ℕ) {sum : ℕ} → grow len more ≡ ok sum → sum ≡ len + more
grow-ok len more h = ground arith

-- A length that is right is right under another name.
renamed : (r : Result ℕ) (x y : ℕ) → OnOk (λ n. n ≡ x) r → x ≡ y → OnOk (λ n. n ≡ y) r
renamed r x y h e = rw (← e) h

extents_len-length :
    (len : ℕ) (extents : List Extent)
    → All IsU64Extent extents
    → OnOk (λ n. n ≡ len + length (put_extents extents)) (extents_len len extents)
unfolding extents_len put_extents
extents_len-length len [] h = omega arith
extents_len-length len ((off, extent_len) ∷ extents) h =
    >>=-OnOk _ (grow len (varint_len off)) _ λ a e.
      >>=-OnOk _ (grow a (varint_len extent_len)) _ λ b f.
        renamed (extents_len b extents) (b + length (put_extents extents)) _
          (extents_len-length b extents h.1)
          (omega (
            arith,
            grow-ok len (varint_len off) e,
            grow-ok a (varint_len extent_len) f,
            varint_len-length off h.0.0,
            varint_len-length extent_len h.0.1,
            length-append {0} (varint off) (varint extent_len ++ put_extents extents),
            length-append {0} (varint extent_len) (put_extents extents),
          ))

length-put_member :
    (name : Bytes) (m : Member)
    → length (put_member name m)
      ≡ length (varint (length name))
        + length name
        + length (varint (length m.extents))
        + length (put_extents m.extents)
        + 4
unfolding put_member
length-put_member name m = omega (
  arith,
  length-append {0} (varint (length name))
      (name ++ (varint (length m.extents) ++ (put_extents m.extents ++ to_le_bytes 4 m.xsum))),
  length-append {0} name
      (varint (length m.extents) ++ (put_extents m.extents ++ to_le_bytes 4 m.xsum)),
  length-append {0} (varint (length m.extents)) (put_extents m.extents ++ to_le_bytes 4 m.xsum),
  length-append {0} (put_extents m.extents) (to_le_bytes 4 m.xsum),
  length-to_le_bytes 4 m.xsum,
)

members_len-length :
    (len : ℕ) (dir : Members)
    → All IsTypedEntry dir
    → OnOk (λ n. n ≡ len + length (put_members dir)) (members_len len dir)
unfolding members_len put_members
members_len-length len [] h = omega arith
members_len-length len ((name, m) ∷ dir) h =
    >>=-OnOk _ (grow len (varint_len (length name))) _ λ a e.
      >>=-OnOk _ (grow a (length name)) _ λ b f.
        >>=-OnOk _ (grow b (varint_len (length m.extents))) _ λ c g.
          >>=-OnOk _ (extents_len c m.extents) _ λ d k. >>=-OnOk _ (grow d 4) _ λ next l.
            renamed (members_len next dir) (next + length (put_members dir)) _
              (members_len-length next dir h.1)
              (omega (
                arith,
                grow-ok len (varint_len (length name)) e,
                grow-ok a (length name) f,
                grow-ok b (varint_len (length m.extents)) g,
                OnOk-ok (λ n. n ≡ c + length (put_extents m.extents)) _
                    (extents_len-length c m.extents h.0.2) k,
                grow-ok d 4 l,
                varint_len-length (length name) h.0.0,
                varint_len-length (length m.extents) h.0.1,
                length-put_member name m,
                length-append {0} (put_member name m) (put_members dir),
              ))

free_len-length :
    (len : ℕ) (free : List FreeExtent)
    → All IsTypedFree free
    → OnOk (λ n. n ≡ len + length (put_free free)) (free_len len free)
unfolding free_len put_free
free_len-length len [] h = omega arith
free_len-length len ((off, extent_len, freed_seq) ∷ free) h =
    >>=-OnOk _ (grow len (varint_len off)) _ λ a e.
      >>=-OnOk _ (grow a (varint_len extent_len)) _ λ b f.
        >>=-OnOk _ (grow b (varint_len freed_seq)) _ λ c g.
          renamed (free_len c free) (c + length (put_free free)) _ (free_len-length c free h.1) (
            omega (
              arith,
              grow-ok len (varint_len off) e,
              grow-ok a (varint_len extent_len) f,
              grow-ok b (varint_len freed_seq) g,
              varint_len-length off h.0.0,
              varint_len-length extent_len h.0.1,
              varint_len-length freed_seq h.0.2,
              length-append {0} (varint off)
                  (varint extent_len ++ (varint freed_seq ++ put_free free)),
              length-append {0} (varint extent_len) (varint freed_seq ++ put_free free),
              length-append {0} (varint freed_seq) (put_free free),
            ))

encoded_directory_len-OnOk :
    (dir : Members) (free : List FreeExtent)
    → IsU64 (length dir)
    → IsU64 (length free)
    → All IsTypedEntry dir
    → All IsTypedFree free
    → OnOk (λ n. n ≡ length (directory_bytes dir free)) (encoded_directory_len dir free)
unfolding encoded_directory_len directory_bytes
encoded_directory_len-OnOk dir free dirs frees typed typed_free =
    >>=-OnOk _ (members_len (varint_len (length dir)) dir) _ λ a e.
      >>=-OnOk _ (grow a (varint_len (length free))) _ λ b f.
        renamed (free_len b free) (b + length (put_free free)) _ (free_len-length b free typed_free)
          (omega (
            arith,
            OnOk-ok (λ n. n ≡ varint_len (length dir) + length (put_members dir)) _
                (members_len-length (varint_len (length dir)) dir typed) e,
            grow-ok a (varint_len (length free)) f,
            varint_len-length (length dir) dirs,
            varint_len-length (length free) frees,
            length-append {0} (varint (length dir))
                (put_members dir ++ (varint (length free) ++ put_free free)),
            length-append {0} (put_members dir) (varint (length free) ++ put_free free),
            length-append {0} (varint (length free)) (put_free free),
          ))

-- What `encode_directory` returns of a directory of Rust values has exactly the length that it
-- has computed in front, so the buffer it has reserved is filled and never grows.
pub encode_directory-length :
    (dir : Members) (free : List FreeExtent) {b : Bytes}
    → IsU64 (length dir)
    → IsU64 (length free)
    → All IsTypedEntry dir
    → All IsTypedFree free
    → encode_directory dir free ≡ ok b
    → (encoded_directory_len dir free ≡ ok (length b)) × (length b ≤ max_dir_raw)
encode_directory-length dir free dirs frees typed typed_free h =
    OnOk-ok (λ b. (encoded_directory_len dir free ≡ ok (length b)) × (length b ≤ max_dir_raw)) _
      checked h
  where
    checked :
        OnOk
          (λ b. (encoded_directory_len dir free ≡ ok (length b)) × (length b ≤ max_dir_raw))
          (encode_directory dir free)
    checked =
        unfold encode_directory in
        >>=-OnOk _ (encoded_directory_len dir free) _ λ n e.
          bail_if-OnOk _ (ltb max_dir_raw n) _ _ λ small.
            let same =
              OnOk-ok (λ n. n ≡ length (directory_bytes dir free)) _
                (encoded_directory_len-OnOk dir free dirs frees typed typed_free) e in
            (e ∙ ap (λ (k : ℕ). ok k) same, ground arith)
