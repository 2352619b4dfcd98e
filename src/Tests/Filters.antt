-- ===== src/Tests/Filters.antt =====
-- A filter for two pieces.
use turndb.Shared.{◌≡◌, refl, true, false, List, [], ◌∷◌, All, replicate, Bytes, ok, arith}
use turndb.Bloom.{
  Bloom, probe, probe_encoded, byte_at, test_bit, contains_from, maybe_contains, section_len,
  bit_count, try_with_capacity, try_encode, insert, insert_from, set_bit, store_byte, decode,
  validate_current, check_hashes,
}
use turndb.Bloom.Filter.{IsBloom, insert_all, insert_all-contains}
use turndb.Bloom.Encoding.{contains_decoded, decode-try_encode, probe_encoded-decode}
use turndb.Bloom.Validation.{column, validate_current-insert_all, validate_current-probe_encoded}
use turndb.Shared.Words.{from_le_bytes}

abbrev first_hash : Bytes
first_hash = replicate 32 3

abbrev second_hash : Bytes
second_hash = replicate 32 200

abbrev two_hashes : List Bytes
two_hashes = first_hash ∷ second_hash ∷ []

-- One byte of bits, all set: it holds every hash.
abbrev full : Bloom
full = record { bits = 255 ∷ []; m = 8 }

full-IsBloom : IsBloom full
full-IsBloom = (omega arith, omega arith, refl, (omega arith, tt))

-- A fresh filter behind the insertion of the first hash. It does not hold the second one.
abbrev one : Bloom
one = record { bits = 72 ∷ 146 ∷ 36 ∷ 0 ∷ 0 ∷ 0 ∷ 0 ∷ 0 ∷ []; m = 64 }

first_inserted : insert (record { bits = replicate 8 0; m = 64 }) first_hash ≡ ok one
unfolding insert insert_from set_bit store_byte byte_at probe from_le_bytes
first_inserted = refl

second_absent : maybe_contains one second_hash ≡ ok false
unfolding maybe_contains contains_from test_bit byte_at probe from_le_bytes
second_absent = refl

insert_all-contains_example :
    (g : Bloom) × ((insert_all one (second_hash ∷ []) ≡ ok g)
      × IsBloom g
      × (g.m ≡ 64)
      × All (λ x. maybe_contains g x ≡ ok true) (second_hash ∷ [])
      × All (λ x. maybe_contains g x ≡ ok true) (first_hash ∷ []))
unfolding maybe_contains contains_from test_bit byte_at probe from_le_bytes
insert_all-contains_example =
    insert_all-contains one (first_hash ∷ []) (second_hash ∷ [])
      (omega arith, omega arith, refl, omega arith) (refl, tt)

decode-try_encode_example : (b : Bytes) × ((try_encode full ≡ ok b) × (decode b ≡ ok full))
decode-try_encode_example = decode-try_encode full full-IsBloom

validate_current-insert_all_example :
    (f : Bloom) × (g : Bloom) × (b : Bytes) × ((try_with_capacity 2 ≡ ok f)
      × (insert_all f two_hashes ≡ ok g)
      × (try_encode g ≡ ok b)
      × (validate_current b (column two_hashes) ≡ ok tt))
validate_current-insert_all_example =
    validate_current-insert_all two_hashes (refl, (refl, tt)) (omega arith)

-- A section of 64 bits, all set.
abbrev full_section : Bytes
full_section = 64 ∷ 0 ∷ 0 ∷ 0 ∷ 0 ∷ 0 ∷ 0 ∷ 0 ∷ replicate 8 255

full-validate_current : validate_current full_section (column two_hashes) ≡ ok tt
unfolding validate_current decode section_len bit_count check_hashes maybe_contains contains_from
    test_bit byte_at probe from_le_bytes
full-validate_current = refl

validate_current-probe_encoded_example : All (λ h. probe_encoded full_section h ≡ true) two_hashes
validate_current-probe_encoded_example =
    validate_current-probe_encoded full_section two_hashes (refl, (refl, tt)) full-validate_current

probe_encoded-decode_example :
    contains_decoded (decode full_section) first_hash ≡ ok (probe_encoded full_section first_hash)
probe_encoded-decode_example = probe_encoded-decode full_section first_hash
