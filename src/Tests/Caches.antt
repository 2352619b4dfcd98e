-- ===== src/Tests/Caches.antt =====
-- A cache of two parts with a budget of forty bytes.
use turndb.Shared.{◌≤◌, max, ◌≡◌, refl, [], ◌∷◌, replicate, some}
use turndb.Cache.{Kind, Held, Entry, SectionCache, weight, put, get, forget}
use turndb.Cache.Entries.{weigh}
use turndb.Cache.Budget.{IsBalanced, put-IsBalanced}
use turndb.Cache.Forget.{others, forget-others}

abbrev old_entry : Entry
old_entry = record {
  part = 1;
  kind = Kind.ids;
  tick = 1;
  held = Held.byte_section (replicate 20 7);
}

abbrev new_entry : Entry
new_entry = record { part = 2; kind = Kind.rids 3; tick = 2; held = Held.row_ids (1 ∷ 2 ∷ []) }

abbrev two_parts : SectionCache
two_parts = record { budget = 40; bytes = 28; clock = 2; entries = old_entry ∷ new_entry ∷ [] }

abbrev thirty : Held
thirty = Held.byte_section (replicate 30 9)

two_parts-IsBalanced : IsBalanced 40 two_parts
unfolding weigh weight
two_parts-IsBalanced = refl

put-IsBalanced_example :
    IsBalanced 40 (put 40 2 Kind.ids thirty two_parts)
    × ((put 40 2 Kind.ids thirty two_parts).budget ≡ 40)
    × ((put 40 2 Kind.ids thirty two_parts).bytes ≤ max 40 (weight 40 thirty))
    × ((get 2 Kind.ids (put 40 2 Kind.ids thirty two_parts)).0 ≡ some thirty)
put-IsBalanced_example = put-IsBalanced 40 2 Kind.ids thirty two_parts two_parts-IsBalanced

forget-others_example :
    ((forget 40 1 two_parts).entries ≡ new_entry ∷ [])
    × IsBalanced 40 (forget 40 1 two_parts)
    × ((forget 40 1 two_parts).budget ≡ 40)
unfolding others
forget-others_example = forget-others 40 1 two_parts two_parts-IsBalanced
