-- ===== src/Types/Defs.antt =====
-- The data types of src/types.rs and their operations. A hash is its 32 bytes, a `String` its UTF-8
-- bytes, and an `i64` or `f64` the 64-bit pattern that the code stores and compares.
use turndb.Shared.{
  ℕ, ◌+◌, ◌%◌, ◌^◌, Bool, true, false, ◌||◌, ◌==◌, if◌then◌else◌, List, [], ◌∷◌, Option, none, some,
  Result, ok, ◌>>◌, bail_if, record_id_empty, content_name_empty, duplicate_content_name,
  empty_piece_reference, Bytes, bytes_eq, bytes_lt, length,
}

-- `AttrValue`. Its `PartialEq` compares floats by `to_bits`, so it is equality of this type.
pub data Value : Type 0 where
  str : Bytes → Value
  int : ℕ → Value
  float : ℕ → Value
  bool : Bool → Value
  uint : ℕ → Value
  bytes : Bytes → Value
  timestamp_ns : ℕ → Value
  null : Value

unfoldable pub type_tag : Value → ℕ
type_tag (str _) = 0
type_tag (int _) = 1
type_tag (float _) = 2
type_tag (bool _) = 3
type_tag (uint _) = 4
type_tag (bytes _) = 5
type_tag (timestamp_ns _) = 6
type_tag null = 7

pub data ContentOp : Type 0 where
  lit : Bytes → ContentOp
  piece : Bytes → ℕ → ContentOp

unfoldable pub op_len : ContentOp → ℕ
op_len (lit b) = length b
op_len (piece hash len) = len

pub record Content : Type 0 where
  pub name : Bytes
  pub ops : List ContentOp
  pub identity : Option Bytes

-- The sum wraps around, as u64 does in a release build.
unfoldable pub content_len : List ContentOp → ℕ
unfolding op_len
content_len [] = 0
content_len (op ∷ ops) = (op_len op + content_len ops) % 2 ^ 64

pub record Record : Type 0 where
  pub id : Bytes
  pub contents : List Content
  pub attrs : List (Bytes × Value)

-- `str::is_empty`
abbrev pub is_empty_name : Bytes → Bool
is_empty_name [] = true
is_empty_name (b ∷ bs) = false

-- `matches!(op, ContentOp::Piece { len: 0, .. })`
abbrev pub is_zero_piece : ContentOp → Bool
is_zero_piece (lit b) = false
is_zero_piece (piece hash len) = len == 0

unfoldable pub any_zero_piece : List ContentOp → Bool
any_zero_piece [] = false
any_zero_piece (op ∷ ops) = is_zero_piece op || any_zero_piece ops

unfoldable pub contains_name : List Bytes → Bytes → Bool
contains_name [] name = false
contains_name (n ∷ names) name = bytes_eq n name || contains_name names name

-- `names` is the set of the names seen so far.
unfoldable pub validate_contents_from : List Bytes → List Content → Result (Unit {0})
unfolding any_zero_piece contains_name
validate_contents_from names [] = ok tt
validate_contents_from names (c ∷ cs) = do
  bail_if (is_empty_name c.name) content_name_empty
  bail_if (contains_name names c.name) duplicate_content_name
  bail_if (any_zero_piece c.ops) empty_piece_reference
  validate_contents_from (c.name ∷ names) cs

unfoldable pub validate_contents : List Content → Result (Unit {0})
unfolding validate_contents_from
validate_contents contents = validate_contents_from [] contents

-- `contents.sort_by(|a, b| a.name.as_bytes().cmp(b.name.as_bytes()))`: stable.
unfoldable pub insert_content : Content → List Content → List Content
insert_content c [] = c ∷ []
insert_content c (d ∷ ds) =
    let rest = insert_content c ds in if bytes_lt d.name c.name then d ∷ rest else c ∷ (d ∷ ds)

unfoldable pub sort_contents : List Content → List Content
unfolding insert_content
sort_contents [] = []
sort_contents (c ∷ cs) = insert_content c (sort_contents cs)

-- `Record::new`
unfoldable pub new_record : Bytes → List Content → List (Bytes × Value) → Result Record
new_record id contents attrs = do
  bail_if (is_empty_name id) record_id_empty
  validate_contents contents
  ok (record { id = id; contents = sort_contents contents; attrs = attrs })

unfoldable pub find_content : List Content → Bytes → Option Content
find_content [] name = none
find_content (c ∷ cs) name = if bytes_eq c.name name then some c else find_content cs name

-- `Record::content`
unfoldable pub content : Record → Bytes → Option Content
unfolding find_content
content r name = find_content r.contents name
