-- ===== src/Wal/Codec/FieldLaws.antt =====
-- Every field of a payload is read back as it was written, and what follows it is left.
use turndb.Shared.{
  ℕ, ◌^◌, ◌≤◌, ◌<◌, ◌≡◌, refl, true, false, ltb, List, [], ◌∷◌, ◌++◌, append_assoc, length,
  length-append, take-length-append, drop-length-append, Bytes, bytes_eq_refl, is_utf8, Result, ok,
  arith, All, ◌>>=◌,
}
use turndb.Shared.Bits.{IsU64}
use turndb.Shared.Words.{to_le_bytes, length-to_le_bytes, from-to_le_bytes}
use turndb.Shared.Digests.{Digests}
use turndb.Types.{
  Value, str, int, float, bool, uint, bytes, timestamp_ns, null, ContentOp, lit, piece,
  is_empty_name, type_tag,
}
use turndb.Varint.{varint, get_varint, get-put_varint}
use turndb.Wal.Codec.Fields.{
  put_bytes, take_field, get_bytes, get_many, put_many, put_op, get_op, put_ops, get_ops, put_value,
  get_value, put_attr, get_attr, put_attrs, get_attrs, put_piece, get_novel_piece, put_novel,
  get_novel,
}

pub take_field-append :
    (field rest : Bytes) (n : ℕ)
    → length field ≡ n
    → take_field (field ++ rest) n ≡ ok (field, rest)
unfolding take_field
take_field-append field rest n e =
    rw (← e) (rw (take-length-append field rest, drop-length-append field rest, fits))
  where
    fits : ltb (length (field ++ rest)) (length field) ≡ false
    fits = ground (arith, length-append field rest)

-- A `Vec` is never as long as 2 ^ 64 bytes.
abbrev pub Fits {ℓ} : {A : Type ℓ} → List A → Type 0
Fits xs = IsU64 (length xs)

pub get-put_bytes : (b rest : Bytes) → Fits b → get_bytes (put_bytes b ++ rest) ≡ ok (b, rest)
unfolding get_bytes put_bytes take_field
get-put_bytes b rest h =
    rw (append_assoc (varint (length b)) b rest, get-put_varint (length b) (b ++ rest) h)
      (take_field-append b rest (length b) refl)

pub get-put_many {ℓ} :
    {A : Type ℓ} (P : A → Type 0) (put : A → Bytes) (get : Bytes → Result (A × Bytes))
    → ((x : A) (rest : Bytes) → P x → get (put x ++ rest) ≡ ok (x, rest))
    → (xs : List A) (rest : Bytes) → All P xs
    → get_many get (length xs) (put_many put xs ++ rest) ≡ ok (xs, rest)
unfolding get_many put_many
get-put_many P put get one [] rest h = refl
get-put_many P put get one (x ∷ xs) rest h = rw (
  append_assoc (put x) (put_many put xs) rest,
  one x (put_many put xs ++ rest) h.0,
  get-put_many P put get one xs rest h.1,
)

-- A counted list: its length as a varint, then its items.
pub get-put_counted {ℓ} :
    {A : Type ℓ} (P : A → Type 0) (put : A → Bytes) (get : Bytes → Result (A × Bytes))
    → ((x : A) (rest : Bytes) → P x → get (put x ++ rest) ≡ ok (x, rest))
    → (xs : List A) (rest : Bytes) → Fits xs
    → All P xs
    → (get_varint ((varint (length xs) ++ put_many put xs) ++ rest) >>= λ r. get_many get r.0 r.1)
      ≡ ok (xs, rest)
get-put_counted P put get one xs rest h all =
    rw
      (
        append_assoc (varint (length xs)) (put_many put xs) rest,
        get-put_varint (length xs) (put_many put xs ++ rest) h,
      )
      (get-put_many P put get one xs rest all)

abbrev pub IsOp : ContentOp → Type 0
IsOp (lit b) = Fits b
IsOp (piece hash len) = (length hash ≡ 32) × (1 ≤ len) × (len < 2 ^ 32)

pub get-put_op :
    (op : ContentOp) (rest : Bytes) → IsOp op → get_op (put_op op ++ rest) ≡ ok (op, rest)
unfolding get_op put_op
get-put_op (lit b) rest h = rw (get-put_bytes b rest h)
get-put_op (piece hash len) rest (h, pos, fits) =
    rw
      (
        append_assoc hash (varint len) rest,
        take_field-append hash (varint len ++ rest) 32 h,
        get-put_varint len rest (omega arith),
      )
      (ground arith)

pub get-put_ops :
    (ops : List ContentOp) (rest : Bytes)
    → Fits ops
    → All IsOp ops
    → get_ops (put_ops ops ++ rest) ≡ ok (ops, rest)
unfolding get_ops put_ops
get-put_ops ops rest h all = get-put_counted IsOp put_op get_op get-put_op ops rest h all

-- The values that the Rust types hold: UTF-8 strings, 64-bit patterns, and lengths that fit.
abbrev pub IsValue : Value → Type 0
IsValue (str s) = Fits s × (is_utf8 s ≡ true)
IsValue (int i) = IsU64 i
IsValue (float f) = IsU64 f
IsValue (bool b) = Unit
IsValue (uint i) = IsU64 i
IsValue (bytes b) = Fits b
IsValue (timestamp_ns ns) = IsU64 ns
IsValue null = Unit

abbrev pub IsAttr : Bytes × Value → Type 0
IsAttr (key, value) = Fits key × (is_utf8 key ≡ true) × (is_empty_name key ≡ false) × IsValue value

take_word :
    (v : ℕ) (rest : Bytes) → take_field (to_le_bytes 8 v ++ rest) 8 ≡ ok (to_le_bytes 8 v, rest)
take_word v rest = take_field-append (to_le_bytes 8 v) rest 8 (length-to_le_bytes 8 v)

pub get-put_value :
    (v : Value) (rest : Bytes)
    → IsValue v
    → get_value (type_tag v) (put_value v ++ rest) ≡ ok (v, rest)
unfolding get_value put_value type_tag
get-put_value (str s) rest (h, u) = rw (get-put_bytes s rest h, u)
get-put_value (int i) rest h = rw (take_word i rest, from-to_le_bytes 8 i h)
get-put_value (float f) rest h = rw (take_word f rest, from-to_le_bytes 8 f h)
get-put_value (bool true) rest h = rw (take_field-append (1 ∷ []) rest 1 refl)
get-put_value (bool false) rest h = rw (take_field-append (0 ∷ []) rest 1 refl)
get-put_value (uint i) rest h = rw (take_word i rest, from-to_le_bytes 8 i h)
get-put_value (bytes b) rest h = rw (get-put_bytes b rest h)
get-put_value (timestamp_ns ns) rest h = rw (take_word ns rest, from-to_le_bytes 8 ns h)
get-put_value null rest h = refl

pub get-put_attr :
    (a : Bytes × Value) (rest : Bytes) → IsAttr a → get_attr (put_attr a ++ rest) ≡ ok (a, rest)
unfolding get_attr put_attr
get-put_attr (key, value) rest (h, u, named, v) = rw (
  append_assoc (put_bytes key) (type_tag value ∷ put_value value) rest,
  get-put_bytes key (type_tag value ∷ (put_value value ++ rest)) h,
  u,
  named,
  get-put_value value rest v,
)

pub get-put_attrs :
    (attrs : List (Bytes × Value)) (rest : Bytes)
    → Fits attrs
    → All IsAttr attrs
    → get_attrs (put_attrs attrs ++ rest) ≡ ok (attrs, rest)
unfolding get_attrs put_attrs
get-put_attrs attrs rest h all =
    get-put_counted IsAttr put_attr get_attr get-put_attr attrs rest h all

module _ (d : Digests) where
  -- A piece that hashes to the name it goes by.
  abbrev pub IsPiece : Bytes × Bytes → Type 0
  IsPiece (hash, body) = Fits body × (is_empty_name body ≡ false) × (d.blake3 body ≡ hash)

  pub get-put_piece :
      (p : Bytes × Bytes) (rest : Bytes)
      → IsPiece p
      → get_novel_piece d (put_piece p ++ rest) ≡ ok (p, rest)
  unfolding get_novel_piece put_piece
  get-put_piece (hash, body) rest (h, some_bytes, same) = rw (
    append_assoc hash (put_bytes body) rest,
    take_field-append hash (put_bytes body ++ rest) 32 (rw (← same) (d.length-blake3 body)),
    get-put_bytes body rest h,
    some_bytes,
    same,
    bytes_eq_refl hash,
  )

  pub get-put_novel :
      (novel : List (Bytes × Bytes)) (rest : Bytes)
      → Fits novel
      → All IsPiece novel
      → get_novel d (put_novel novel ++ rest) ≡ ok (novel, rest)
  unfolding get_novel put_novel
  get-put_novel novel rest h all =
      get-put_counted IsPiece put_piece (get_novel_piece d) get-put_piece novel rest h all
