-- ===== src/Tests/Windows.antt =====
-- A dedup window of sixteen slots.
use turndb.Shared.{◌≡◌, refl, length, replicate, none, Bytes, ok, arith}
use turndb.Dedup.{Loc, DedupTable, empty_slot, get, insert, clear}
use turndb.Dedup.Growth.{fresh-Sound, fresh-Holds}
use turndb.Dedup.Table.{Implements, with_entry, get-Implements, insert-Implements}
use turndb.Dedup.Fresh.{no_entries, clear-Implements}

abbrev sixteen_slots : DedupTable
sixteen_slots = record { slots = replicate 16 empty_slot; mask = 15; len = 0; zero_loc = none }

abbrev piece : Bytes
piece = replicate 32 7

abbrev somewhere : Loc
somewhere = record { block_id = 48; in_off = 0; raw = 20 }

sixteen-Implements : Implements sixteen_slots no_entries
unfolding Implements
sixteen-Implements = (
  4,
  (fresh-Sound 4 16 none refl, omega arith, omega arith, refl, λ k full. fresh-Holds 16 k full),
)

get-Implements_example : get sixteen_slots piece ≡ ok none
get-Implements_example = get-Implements sixteen_slots no_entries piece sixteen-Implements

insert-Implements_example :
    (later : DedupTable) × ((insert sixteen_slots piece somewhere ≡ ok later)
      × Implements later (with_entry no_entries piece somewhere))
insert-Implements_example =
    insert-Implements sixteen_slots no_entries piece somewhere sixteen-Implements

clear-Implements_example :
    Implements (clear sixteen_slots) no_entries × (length (clear sixteen_slots).slots ≡ 16)
clear-Implements_example = clear-Implements sixteen_slots no_entries sixteen-Implements
