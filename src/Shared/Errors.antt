-- ===== src/Shared/Errors.antt =====
-- `anyhow::Result`: a value, or the condition that a `bail!` or a failed conversion reports.
use mathlib.Core.Path.{◌≡◌, refl}
use mathlib.Core.Bool.{Bool, true, false}
use turndb.Shared.Tests.{if◌then◌else◌}

pub data Error : Type 0 where
  varint_truncated varint_overflow varint_not_minimal : Error
  -- src/read_limits.rs
  invalid_limits stored_frame_too_large decoded_frame_too_large object_count_too_large : Error
  -- src/types.rs
  record_id_empty content_name_empty duplicate_content_name empty_piece_reference : Error
  -- src/store/wal.rs, payloads
  field_past_frame truncated_op unknown_op piece_length_not_u32 piece_length_zero not_utf8 : Error
  attribute_name_empty truncated_attr invalid_boolean unknown_attr : Error
  novel_piece_empty novel_piece_hash duplicate_novel_piece piece_length_differs : Error
  identity_missing identity_differs content_order trailing_bytes : Error
  -- src/store/wal.rs, frames
  payload_too_long empty_batch tombstone_with_data frame_checksum unknown_tag : Error
  batch_count_malformed batch_count_zero batch_count_excess batch_sequence tombstone_id : Error
  length_overflow io_failure allocation_failure boundary_past_file : Error
  -- src/container.rs
  alignment_overflow birth_state_expected directory_over_ceiling unknown_codec : Error
  unequal_directory_lengths directory_outside_region identity_unrecognized unknown_epoch : Error
  reserved_bits_set reserved_tail_set contradictory_superblocks no_superblock : Error
  member_name_empty member_name_too_long member_name_backslash member_name_path : Error
  directory_length_overflow directory_too_large empty_declaration directory_checksum : Error
  entry_count_differs directory_truncated member_order extents_over_ceiling : Error
  empty_extent member_length_overflow extent_overflow extent_outside duplicate_member : Error
  free_over_ceiling freed_in_future directory_trailing overlapping_extents : Error
  poisoned_container member_write_open no_member_write stale_member_write : Error
  members_over_ceiling sequence_exhausted tokens_exhausted member_not_found : Error
  container_too_short container_truncated read_past_end write_out_of_order : Error
  -- src/fold/codec.rs
  stored_length_differs dictionary_missing compression decompression : Error
  decoded_length_differs : Error
  -- src/part/idcol.rs
  id_order id_stream_overflow restart_count restart_offset : Error
  restart_prefix corrupt_id_entry id_order_or_duplicate id_index missing_restart : Error
  -- src/part/bloom.rs
  bloom_overflow bloom_truncated bloom_size partial_identity bloom_parameters : Error
  bloom_false_negative : Error
  -- src/fold/block.rs
  loc_truncated block_header_truncated block_tag_mismatch unknown_block_codec : Error
  block_raw_zero block_stored_over_raw block_stored_differs block_without_dictionary : Error
  block_empty block_too_large block_truncated block_checksum : Error
  -- src/part/content.rs and src/part/mod.rs, content programs
  piece_outside_dictionary piece_index reserved_op literal_past_program : Error
  -- a panic of `usize::next_power_of_two`
  capacity_overflow : Error
  -- a panic: an index past the end of a slice
  index_out_of_bounds : Error
  -- no error of the code: a loop of the model has used up its rounds
  out_of_fuel : Error

pub data Result {ℓ} (T : Type ℓ) : Type ℓ where
  ok : T → Result T
  err : Error → Result T

-- `if test { bail!(...) }`
abbrev pub bail_if : Bool → Error → Result (Unit {0})
bail_if true e = err e
bail_if false e = ok tt

-- The `?` of Rust: an error is returned at once.
infixl 5 ◌>>=◌ ◌>>◌
abbrev pub ◌>>=◌ {ℓ κ} : {T : Type ℓ} {U : Type κ} → Result T → (T → Result U) → Result U
err e >>= onward = err e
ok a >>= onward = onward a

abbrev pub ◌>>◌ {κ} : {U : Type κ} → Result (Unit {0}) → Result U → Result U
first >> second = first >>= λ _. second

-- A sequence that succeeds has succeeded in both of its parts.
pub >>=-eq-ok {ℓ κ} :
    {T : Type ℓ} {U : Type κ} (first : Result T) (onward : T → Result U) {u : U}
    → (first >>= onward) ≡ ok u
    → (a : T) × (first ≡ ok a) × (onward a ≡ ok u)
>>=-eq-ok (err e) onward h = cc
>>=-eq-ok (ok a) onward h = (a, refl, h)

pub bail_if-eq-ok : (test : Bool) (e : Error) {u : Unit {0}} → bail_if test e ≡ ok u → test ≡ false
bail_if-eq-ok true e h = cc
bail_if-eq-ok false e h = refl

-- What holds of the value when there is one.
abbrev pub OnOk {ℓ κ} : {T : Type ℓ} → (T → Type κ) → Result T → Type κ
OnOk P (ok a) = P a
OnOk P (err e) = Unit

pub >>=-OnOk {ℓ κ μ} :
    {T : Type ℓ} {U : Type κ} (P : U → Type μ) (first : Result T) (onward : T → Result U)
    → ((a : T) → first ≡ ok a → OnOk P (onward a))
    → OnOk P (first >>= onward)
>>=-OnOk P (err e) onward h = tt
>>=-OnOk P (ok a) onward h = h a refl

pub bail_if-OnOk {κ μ} :
    {U : Type κ} (P : U → Type μ) (test : Bool) (e : Error) (onward : Result U)
    → (test ≡ false → OnOk P onward)
    → OnOk P (bail_if test e >> onward)
bail_if-OnOk P true e onward h = tt
bail_if-OnOk P false e onward h = h refl

pub OnOk-ok {ℓ κ} : {T : Type ℓ} (P : T → Type κ) (r : Result T) {a : T} → OnOk P r → r ≡ ok a → P a
OnOk-ok P r h e = rw e at h

pub OnOk-of {ℓ κ} :
    {T : Type ℓ} (P : T → Type κ) (r : Result T) → ((a : T) → r ≡ ok a → P a) → OnOk P r
OnOk-of P (ok a) h = h a refl
OnOk-of P (err e) h = tt

-- Two sequences that start alike and go on alike where the first part succeeds.
pub >>=-same {ℓ κ} :
    {T : Type ℓ} {U : Type κ} (first : Result T) (f g : T → Result U)
    → ((a : T) → first ≡ ok a → f a ≡ g a)
    → (first >>= f) ≡ (first >>= g)
>>=-same (err e) f g h = refl
>>=-same (ok a) f g h = h a refl

pub if-OnOk {ℓ κ} :
    {T : Type ℓ} (P : T → Type κ) (test : Bool) (r s : Result T)
    → OnOk P r
    → OnOk P s
    → OnOk P (if test then r else s)
if-OnOk P true r s h k = h
if-OnOk P false r s h k = k
