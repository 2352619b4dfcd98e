-- ===== src/Wal/Codec/RoundTrip.antt =====
-- `decode_record` reads back what `encode_record` wrote.
use turndb.Shared.{
  ◌≡◌, refl, true, false, List, [], ◌∷◌, ◌++◌, append-nil, length, none, Bytes, bytes_eq,
  bytes_eq→eq, ok, arith, >>=-eq-ok, All,
}
use turndb.Shared.Digests.{Digests}
use turndb.Types.{
  Content, Record, is_empty_name, validate_contents, sort_contents, length-sort, IsSound, All-sort,
  sort-IsSorted, sort-eq_of_IsSorted, validate_contents_iff, validate_contents-sort, new_record-ok,
}
use turndb.Varint.{varint, get-put_varint}
use turndb.Wal.Codec.Fields.{put_bytes, put_attrs, put_novel, get_novel}
use turndb.Wal.Codec.FieldLaws.{Fits, IsPiece, get-put_bytes, get-put_attrs, get-put_novel}
use turndb.Wal.Codec.Payload.{
  collect_pieces, put_contents, any_empty_key, get_contents, verify_content, verify_contents,
  verify_frame_local_identities, check_novel, validate_record_for_wal, encode_record, decode_record,
}
use turndb.Wal.Codec.ContentLaws.{IsTyped, ContentTyped, attrs_typed, get-put_contents}

module _ (d : Digests) where
  verify_contents→All :
      (pieces : List (Bytes × Bytes)) (cs : List Content)
      → verify_contents d pieces cs ≡ ok tt
      → All (λ c. verify_content d pieces c ≡ ok tt) cs
  unfolding verify_contents
  verify_contents→All pieces [] h = tt
  verify_contents→All pieces (c ∷ cs) h =
      let (u, e, k) = >>=-eq-ok (verify_content d pieces c) _ h in
      (e, verify_contents→All pieces cs k)

  All→verify_contents :
      (pieces : List (Bytes × Bytes)) (cs : List Content)
      → All (λ c. verify_content d pieces c ≡ ok tt) cs
      → verify_contents d pieces cs ≡ ok tt
  unfolding verify_contents
  All→verify_contents pieces [] h = refl
  All→verify_contents pieces (c ∷ cs) h = rw (h.0) (All→verify_contents pieces cs h.1)

  -- The check of identities does not depend on the order of the contents.
  verify-sort :
      (r : Record) (novel : List (Bytes × Bytes))
      → verify_frame_local_identities d r novel ≡ ok tt
      → verify_frame_local_identities d (record r { contents = sort_contents r.contents }) novel
        ≡ ok tt
  unfolding verify_frame_local_identities
  verify-sort r novel h =
      let (pieces, e, k) = >>=-eq-ok (collect_pieces [] novel) _ h in
      rw e (
        All→verify_contents pieces (sort_contents r.contents) (
          All-sort (λ c. verify_content d pieces c ≡ ok tt) r.contents
            (verify_contents→All pieces r.contents k)))

  check_novel_inv :
      (seen novel : List (Bytes × Bytes)) (hash body : Bytes)
      → check_novel d seen ((hash, body) ∷ novel) ≡ ok tt
      → (is_empty_name body ≡ false)
        × (bytes_eq (d.blake3 body) hash ≡ true)
        × (check_novel d ((hash, body) ∷ seen) novel ≡ ok tt)
  unfolding check_novel
  check_novel_inv seen novel hash body h = ground arith

  check_novel→IsPiece :
      (seen novel : List (Bytes × Bytes))
      → All (λ (p : Bytes × Bytes). Fits p.1) novel
      → check_novel d seen novel ≡ ok tt
      → All (IsPiece d) novel
  check_novel→IsPiece seen [] t h = tt
  check_novel→IsPiece seen ((hash, body) ∷ novel) t h =
      let (some_bytes, same, k) = check_novel_inv seen novel hash body h in
      (
        (t.0, some_bytes, bytes_eq→eq (d.blake3 body) hash same),
        check_novel→IsPiece ((hash, body) ∷ seen) novel t.1 k,
      )

  -- What a record that passes `validate_record_for_wal` satisfies.
  validate_record_inv :
      (r : Record) (novel : List (Bytes × Bytes))
      → validate_record_for_wal d r novel ≡ ok tt
      → (validate_contents r.contents ≡ ok tt)
        × (is_empty_name r.id ≡ false)
        × (any_empty_key r.attrs ≡ false)
        × (check_novel d [] novel ≡ ok tt)
        × (verify_frame_local_identities d r novel ≡ ok tt)
  validate_record_inv r novel h = unfold validate_record_for_wal in ground arith

  encode_record_inv :
      (r : Record) (novel : List (Bytes × Bytes)) (out : Bytes)
      → encode_record d r novel ≡ ok out
      → (contents : Bytes) × (validate_record_for_wal d r novel ≡ ok tt)
        × (put_contents (sort_contents r.contents) ≡ ok contents)
        × (out
            ≡ put_bytes r.id
              ++ (varint (length r.contents)
                  ++ (contents ++ (put_attrs r.attrs ++ put_novel novel))))
  unfolding encode_record
  encode_record_inv r novel out h =
      let (u, e, k) = >>=-eq-ok (validate_record_for_wal d r novel) _ h in
      let (contents, f, l) = >>=-eq-ok (put_contents (sort_contents r.contents)) _ k in
      (contents, e, f, cc)

  -- Decoding what was encoded gives the record back, its contents in canonical order, with its
  -- novel pieces: of every record that Rust's types allow and that `encode_record` accepts.
  pub decode-encode_record :
      (r : Record) (novel : List (Bytes × Bytes)) (out : Bytes)
      → IsTyped r novel
      → encode_record d r novel ≡ ok out
      → decode_record d out ≡ ok (record r { contents = sort_contents r.contents }, novel)
  unfolding decode_record
  decode-encode_record r novel out t h =
      let (contents, valid, f, same) = encode_record_inv r novel out h in
      let (v, named, keys, pieces, identities) = validate_record_inv r novel valid in
      let (distinct, sound) = (validate_contents_iff r.contents).0 v in
      let cs = sort_contents r.contents in
      let sorted = sort-IsSorted r.contents distinct in
      let tail = put_attrs r.attrs ++ put_novel novel in
      let last : get_novel d (put_novel novel) ≡ ok (novel, []) =
        rw append-nil at
          (get-put_novel d novel [] t.pieces.0 (check_novel→IsPiece [] novel t.pieces.1 pieces)) in
      let middle : get_contents (length r.contents) none (contents ++ tail) ≡ ok (cs, tail) =
        rw (length-sort r.contents) at (
          get-put_contents cs none contents tail (All-sort ContentTyped r.contents t.contents.1)
            (All-sort IsSound r.contents sound) sorted tt f) in
      rw (
        same,
        get-put_bytes r.id (varint (length r.contents) ++ (contents ++ tail)) t.id.0,
        t.id.1,
        get-put_varint (length r.contents) (contents ++ tail) t.contents.0,
        middle,
        get-put_attrs r.attrs (put_novel novel) t.attrs.0 (attrs_typed r.attrs t.attrs.1 keys),
        last,
        new_record-ok r.id cs r.attrs named (validate_contents-sort r.contents v),
        sort-eq_of_IsSorted cs sorted,
        verify-sort r novel identities,
      )
