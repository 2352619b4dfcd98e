-- ===== src/Tests/Codecs.antt =====
-- Varints and read limits.
use turndb.Shared.{◌≡◌, refl, ◌↔◌, [], ◌∷◌, ◌++◌, ok, arith}
use turndb.Shared.Bits.{IsU64}
use turndb.Varint.{varint, get_varint, get-put_varint, get_varint-canonical}
use turndb.ReadLimits.{default_limits, validate, validate_iff, IsValid}

get-put_varint_example : get_varint (varint 300 ++ 7 ∷ []) ≡ ok (300, 7 ∷ [])
get-put_varint_example = get-put_varint 300 (7 ∷ []) (omega arith)

read_300 : get_varint (0xac ∷ 2 ∷ 7 ∷ []) ≡ ok (300, 7 ∷ [])
unfolding get_varint
read_300 = refl

get_varint-canonical_example : (0xac ∷ 2 ∷ 7 ∷ [] ≡ varint 300 ++ 7 ∷ []) × IsU64 300
get_varint-canonical_example =
    get_varint-canonical (0xac ∷ 2 ∷ 7 ∷ []) 300 (7 ∷ [])
      (omega arith, (omega arith, (omega arith, tt))) read_300

validate_iff_example :
    (validate default_limits ≡ ok default_limits)
    ↔ ((default_limits ≡ default_limits) × IsValid default_limits)
validate_iff_example = validate_iff default_limits default_limits
