-- ===== src/Wal/Codec/ContentLaws.antt =====
-- The contents of a payload are read back in canonical order, and what Rust's types say of a record.
use turndb.Shared.{
  ◌^◌, ◌<◌, ◌≡◌, refl, sym, ap, true, false, List, [], ◌∷◌, ◌++◌, append_assoc, length, Option,
  none, some, Bytes, is_utf8, ok, arith, subst, >>=-eq-ok, All,
}
use turndb.Types.{
  Value, ContentOp, lit, piece, Content, Record, any_zero_piece, IsSound, IsSorted, Above,
}
use turndb.Wal.Codec.Fields.{put_bytes, put_ops}
use turndb.Wal.Codec.FieldLaws.{
  Fits, IsOp, IsValue, IsAttr, get-put_bytes, take_field-append, get-put_ops,
}
use turndb.Wal.Codec.Payload.{
  put_content, put_contents, any_empty_key, out_of_order, get_content, get_contents,
}

-- What Rust's types say of a record: strings are UTF-8, hashes have 32 bytes, words fit.
abbrev pub OpTyped : ContentOp → Type 0
OpTyped (lit b) = Fits b
OpTyped (piece hash len) = (length hash ≡ 32) × (len < 2 ^ 32)

abbrev pub HashTyped : Option Bytes → Type 0
HashTyped none = Unit
HashTyped (some hash) = length hash ≡ 32

pub record ContentTyped (c : Content) : Type 0 where
  pub name : Fits c.name × (is_utf8 c.name ≡ true)
  pub ops : Fits c.ops × All OpTyped c.ops
  pub identity : HashTyped c.identity

abbrev pub AttrTyped : Bytes × Value → Type 0
AttrTyped (key, value) = Fits key × (is_utf8 key ≡ true) × IsValue value

pub record IsTyped (r : Record) (novel : List (Bytes × Bytes)) : Type 0 where
  pub id : Fits r.id × (is_utf8 r.id ≡ true)
  pub contents : Fits r.contents × All ContentTyped r.contents
  pub attrs : Fits r.attrs × All AttrTyped r.attrs
  pub pieces : Fits novel × All (λ (p : Bytes × Bytes). Fits p.1) novel

ops_typed : (ops : List ContentOp) → All OpTyped ops → any_zero_piece ops ≡ false → All IsOp ops
unfolding any_zero_piece
ops_typed [] t h = tt
ops_typed (lit b ∷ ops) t h = (t.0, ops_typed ops t.1 h)
ops_typed (piece hash len ∷ ops) t h =
    ((t.0.0, ground arith, t.0.1), ops_typed ops t.1 (ground arith))

pub attrs_typed :
    (attrs : List (Bytes × Value))
    → All AttrTyped attrs
    → any_empty_key attrs ≡ false
    → All IsAttr attrs
unfolding any_empty_key
attrs_typed [] t h = tt
attrs_typed ((key, value) ∷ attrs) t h =
    ((t.0.0, t.0.1, ground arith, t.0.2), attrs_typed attrs t.1 (ground arith))

-- Where the contents have to come behind a name already read.
abbrev AbovePrevious : Option Bytes → List Content → Type 0
AbovePrevious none cs = Unit
AbovePrevious (some previous) cs = Above previous cs

in_order :
    (previous : Option Bytes) (c : Content) (cs : List Content)
    → AbovePrevious previous (c ∷ cs)
    → out_of_order previous c.name ≡ false
unfolding out_of_order
in_order none c cs a = refl
in_order (some previous) c cs a = rw (a.0)

-- An encoded content has an identity, and its bytes are its name, the identity and its ops.
put_content_inv :
    (c : Content) (out : Bytes)
    → put_content c ≡ ok out
    → (hash : Bytes) × (c.identity ≡ some hash)
      × (out ≡ put_bytes c.name ++ (hash ++ put_ops c.ops))
unfolding put_content
put_content_inv c out h = ground arith

get-put_content :
    (previous : Option Bytes) (c : Content) (out rest : Bytes)
    → ContentTyped c
    → IsSound c
    → out_of_order previous c.name ≡ false
    → put_content c ≡ ok out
    → get_content previous (out ++ rest) ≡ ok (c, rest)
unfolding get_content
get-put_content previous c out rest t s o h =
    let (hash, identity, same) = put_content_inv c out h in
    let hash_length : length hash ≡ 32 = subst HashTyped identity t.identity in
    rw
      (
        same,
        append_assoc (put_bytes c.name) (hash ++ put_ops c.ops) rest,
        append_assoc hash (put_ops c.ops) rest,
        get-put_bytes c.name (hash ++ (put_ops c.ops ++ rest)) t.name.0,
        o,
        t.name.1,
        take_field-append hash (put_ops c.ops ++ rest) 32 hash_length,
        get-put_ops c.ops rest t.ops.0 (ops_typed c.ops t.ops.1 s.pieces),
      )
      (ap (λ (o : Option Bytes). ok (record c { identity = o }, rest)) (sym identity))

put_contents_inv :
    (c : Content) (cs : List Content) (out : Bytes)
    → put_contents (c ∷ cs) ≡ ok out
    → (first : Bytes) × (others : Bytes) × (put_content c ≡ ok first)
      × (put_contents cs ≡ ok others)
      × (out ≡ first ++ others)
unfolding put_contents
put_contents_inv c cs out h =
    let (first, e, k) = >>=-eq-ok (put_content c) _ h in
    let (others, f, l) = >>=-eq-ok (put_contents cs) _ k in (first, others, e, f, cc)

pub get-put_contents :
    (cs : List Content) (previous : Option Bytes) (out rest : Bytes)
    → All ContentTyped cs
    → All IsSound cs
    → IsSorted cs
    → AbovePrevious previous cs
    → put_contents cs ≡ ok out
    → get_contents (length cs) previous (out ++ rest) ≡ ok (cs, rest)
unfolding get_contents
get-put_contents [] previous out rest t s o a h =
    let nothing : out ≡ [] = unfold put_contents in cc in rw nothing
get-put_contents (c ∷ cs) previous out rest t s o a h =
    let (first, others, e, f, same) = put_contents_inv c cs out h in
    rw (
      same,
      append_assoc first others rest,
      get-put_content previous c first (others ++ rest) t.0 s.0 (in_order previous c cs a) e,
      get-put_contents cs (some c.name) others rest t.1 s.1 o.1 o.0 f,
    )
