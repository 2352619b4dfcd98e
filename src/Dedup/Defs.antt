-- ===== src/Dedup/Defs.antt =====
-- The table. A loop that would run forever uses up its rounds, one for each slot.
use turndb.Shared.{
  ℕ, zero, suc, ◌+◌, ◌-◌, ◌*◌, max, bit_and, Bool, true, false, ◌||◌, ltb, leb, if◌then◌else◌, List,
  [], ◌∷◌, length, take, replicate, Option, none, some, Bytes, bytes_eq, Result, ok, err, ◌>>=◌,
  index_out_of_bounds, out_of_fuel, capacity_overflow,
}
use turndb.Shared.Words.{from_le_bytes}
pub use turndb.Block.{Loc}

pub record Slot : Type 0 where
  pub hash : Bytes
  pub loc : Loc

pub record DedupTable : Type 0 where
  pub slots : List Slot
  pub mask : ℕ
  pub len : ℕ
  pub zero_loc : Option Loc

-- `EMPTY`
abbrev pub empty_hash : Bytes
empty_hash = replicate 32 0

abbrev pub empty_slot : Slot
empty_slot = record { hash = empty_hash; loc = record { block_id = 0; in_off = 0; raw = 0 } }

unfoldable pub slot_at : List Slot → ℕ → Result Slot
slot_at [] i = err index_out_of_bounds
slot_at (s ∷ slots) zero = ok s
slot_at (s ∷ slots) (suc i) = slot_at slots i

unfoldable pub store_slot : List Slot → ℕ → Slot → List Slot
store_slot [] i slot = []
store_slot (s ∷ slots) zero slot = slot ∷ slots
store_slot (s ∷ slots) (suc i) slot = s ∷ store_slot slots i slot

abbrev pub is_vacant : Slot → Bool
is_vacant s = bytes_eq s.hash empty_hash

-- The probe stops at a slot that is empty or holds the hash.
unfoldable pub stops : Bytes → Slot → Bool
stops hash s = is_vacant s || bytes_eq s.hash hash

unfoldable pub probe_start : DedupTable → Bytes → ℕ
probe_start t h = bit_and (from_le_bytes (take 8 h)) t.mask

-- The loop of `get` and of `insert_raw`: the first slot from `i` on that is empty or holds the hash.
unfoldable pub seek : List Slot → ℕ → Bytes → ℕ → ℕ → Result ℕ
seek slots mask hash zero i = err out_of_fuel
seek slots mask hash (suc fuel) i = do
  s ← slot_at slots i
  elim (stops hash s) [ true ↦ ok i | false ↦ seek slots mask hash fuel (bit_and (i + 1) mask) ]

unfoldable pub get : DedupTable → Bytes → Result (Option Loc)
get t hash = if bytes_eq hash empty_hash then ok t.zero_loc else (do
  i ← seek t.slots t.mask hash (length t.slots) (probe_start t hash)
  s ← slot_at t.slots i
  ok (if is_vacant s then none else some s.loc))

unfoldable pub insert_raw : DedupTable → Bytes → Loc → Result DedupTable
insert_raw t hash loc = do
  i ← seek t.slots t.mask hash (length t.slots) (probe_start t hash)
  s ← slot_at t.slots i
  ok (
      if is_vacant s
      then record {
        slots = store_slot t.slots i (record { hash = hash; loc = loc });
        mask = t.mask;
        len = t.len + 1;
        zero_loc = t.zero_loc;
      }
      else t)

-- The loop of `grow` over the old slots.
unfoldable pub reinsert : List Slot → DedupTable → Result DedupTable
reinsert [] t = ok t
reinsert (s ∷ old) t = elim (is_vacant s) [
  | true ↦ reinsert old t
  | false ↦ (insert_raw t s.hash s.loc >>= λ t. reinsert old t)
]

unfoldable pub grow : DedupTable → Result DedupTable
grow t =
    let bigger = length t.slots * 2 in
    reinsert t.slots (record {
      slots = replicate bigger empty_slot;
      mask = bigger - 1;
      len = 0;
      zero_loc = t.zero_loc;
    })

unfoldable pub insert : DedupTable → Bytes → Loc → Result DedupTable
insert t hash loc =
    if bytes_eq hash empty_hash
    then ok (record { slots = t.slots; mask = t.mask; len = t.len; zero_loc = some loc })
    else (do
      t ← if ltb (length t.slots * 3) ((t.len + 1) * 4) then grow t else ok t
      insert_raw t hash loc)

abbrev vacate : Slot → Slot
vacate s = record { hash = empty_hash; loc = s.loc }

unfoldable pub vacate_all : List Slot → List Slot
vacate_all [] = []
vacate_all (s ∷ slots) = vacate s ∷ vacate_all slots

unfoldable pub clear : DedupTable → DedupTable
clear t = record { slots = vacate_all t.slots; mask = t.mask; len = 0; zero_loc = none }

-- `usize::next_power_of_two`: the doubles of `p` up to the first one that is not below `n`.
unfoldable pub power_from : ℕ → ℕ → ℕ → Result ℕ
power_from zero p n = err capacity_overflow
power_from (suc fuel) p n = if leb n p then ok p else power_from fuel (p * 2) n

unfoldable pub with_capacity : ℕ → Result DedupTable
with_capacity cap_pow2 = do
  power ← power_from 64 1 cap_pow2
  let cap = max power 16
  ok (record { slots = replicate cap empty_slot; mask = cap - 1; len = 0; zero_loc = none })

-- `len()`
unfoldable pub entry_count : DedupTable → ℕ
entry_count t = t.len + (elim t.zero_loc [ none ↦ 0 | some l ↦ 1 ])
