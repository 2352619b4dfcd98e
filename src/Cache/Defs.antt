-- ===== src/Cache/Defs.antt =====
-- The cache. Its map is a list of entries, each under a part and a kind; a lock is held throughout
-- each operation, so that the operations follow each other.
use turndb.Shared.{
  ℕ, zero, suc, ◌+◌, ◌-◌, ◌*◌, max, Bool, true, false, ◌==◌, ◌&&◌, ltb, leb, if◌then◌else◌, List,
  [], ◌∷◌, length, Option, none, some, Bytes, bytes_eq,
}

-- `BUDGET_DEFAULT` and `BUDGET_MIN`
abbrev pub budget_default : ℕ
budget_default = 536870912

abbrev pub budget_min : ℕ
budget_min = 1048576

pub data Kind : Type 0 where
  section nums : Bytes → Kind
  rids content_rids dict binary_dict : ℕ → Kind
  content_meta ids : Kind

-- `==` as derived.
unfoldable pub kind_eq : Kind → Kind → Bool
kind_eq (Kind.section a) (Kind.section b) = bytes_eq a b
kind_eq (Kind.nums a) (Kind.nums b) = bytes_eq a b
kind_eq (Kind.rids a) (Kind.rids b) = a == b
kind_eq (Kind.content_rids a) (Kind.content_rids b) = a == b
kind_eq (Kind.dict a) (Kind.dict b) = a == b
kind_eq (Kind.binary_dict a) (Kind.binary_dict b) = a == b
kind_eq Kind.content_meta Kind.content_meta = true
kind_eq Kind.ids Kind.ids = true
kind_eq _ _ = false

-- src/part/mod.rs
pub record ContentMeta : Type 0 where
  pub name : Bytes
  pub occurrences : ℕ
  pub dense : Bool

pub data Held : Type 0 where
  byte_section : Bytes → Held
  num_array row_ids : List ℕ → Held
  strings byte_strings : List Bytes → Held
  column_meta : List ContentMeta → Held

-- `name.len() + size_of::<T>()` for each element.
unfoldable pub sized_sum : ℕ → List Bytes → ℕ
sized_sum size [] = 0
sized_sum size (b ∷ bs) = length b + size + sized_sum size bs

unfoldable pub meta_sum : ℕ → List ContentMeta → ℕ
meta_sum size [] = 0
meta_sum size (m ∷ ms) = length m.name + size + meta_sum size ms

pub record Entry : Type 0 where
  pub part : ℕ
  pub kind : Kind
  pub tick : ℕ
  pub held : Held

pub record SectionCache : Type 0 where
  pub budget : ℕ
  pub bytes : ℕ
  pub clock : ℕ
  pub entries : List Entry

abbrev pub is_at : ℕ → Kind → Entry → Bool
is_at part kind e = e.part == part && kind_eq e.kind kind

unfoldable pub lookup : ℕ → Kind → List Entry → Option Entry
lookup part kind [] = none
lookup part kind (e ∷ es) =
    let rest = lookup part kind es in if is_at part kind e then some e else rest

unfoldable pub without : ℕ → Kind → List Entry → List Entry
without part kind [] = []
without part kind (e ∷ es) =
    let rest = without part kind es in if is_at part kind e then es else e ∷ rest

-- `e.0 = c`
unfoldable pub touch : ℕ → ℕ → Kind → List Entry → List Entry
touch tick part kind [] = []
touch tick part kind (e ∷ es) =
    let rest = touch tick part kind es in
    if is_at part kind e then record e { tick = tick } ∷ es else e ∷ rest

-- `min_by_key` on the ticks: the first entry with the lowest.
abbrev pub colder : Entry → Option Entry → Entry
colder e none = e
colder e (some other) = if leb e.tick other.tick then e else other

unfoldable pub coldest : List Entry → Option Entry
coldest [] = none
coldest (e ∷ es) = some (colder e (coldest es))

-- The size of a column's metadata in memory is chosen by the compiler.
module _ (content_meta_size : ℕ) where
  unfoldable pub weight : Held → ℕ
  weight (Held.byte_section v) = length v
  weight (Held.num_array v) = length v * 8
  weight (Held.row_ids v) = length v * 4
  weight (Held.strings v) = sized_sum 24 v
  weight (Held.byte_strings v) = sized_sum 24 v
  weight (Held.column_meta v) = meta_sum content_meta_size v

  -- `bytes -= gone.weight()`, of an entry that was in the map.
  abbrev pub release : ℕ → Kind → SectionCache → Option Entry → SectionCache
  release part kind c none = c
  release part kind c (some gone) = record c {
    bytes = c.bytes - weight gone.held;
    entries = without part kind c.entries;
  }

  -- `if let Some((_, gone)) = map.remove(key) { ... }`
  unfoldable pub remove : ℕ → Kind → SectionCache → SectionCache
  remove part kind c = release part kind c (lookup part kind c.entries)

  -- The loop of `put`, with a round for each entry.
  unfoldable pub evict : ℕ → ℕ → SectionCache → SectionCache
  evict zero w c = c
  evict (suc rounds) w c =
      if ltb c.budget (c.bytes + w)
      then (elim (coldest c.entries) [
        | none ↦ c
        | some victim ↦ evict rounds w (remove victim.part victim.kind c)
      ])
      else c

  unfoldable pub put : ℕ → Kind → Held → SectionCache → SectionCache
  put part kind v c =
      let room = evict (length c.entries) (weight v) c in
      let placed =
        remove part kind (record room { clock = room.clock + 1; bytes = room.bytes + weight v }) in
      record placed {
        entries =
            record { part = part; kind = kind; tick = placed.clock; held = v } ∷ placed.entries;
      }

  unfoldable pub forget_each : ℕ → List Entry → SectionCache → SectionCache
  forget_each part [] c = c
  forget_each part (e ∷ es) c =
      forget_each part es (if e.part == part then remove part e.kind c else c)

  unfoldable pub forget : ℕ → SectionCache → SectionCache
  forget part c = forget_each part c.entries c

-- The entry found is marked with the tick and given out.
abbrev pub give : ℕ → Kind → SectionCache → Option Entry → Option Held × SectionCache
give part kind c none = (none, c)
give part kind c (some e) = (some e.held, record c { entries = touch c.clock part kind c.entries })

unfoldable pub get : ℕ → Kind → SectionCache → Option Held × SectionCache
get part kind c = give part kind (record c { clock = c.clock + 1 }) (lookup part kind c.entries)

unfoldable pub new : ℕ → SectionCache
new budget = record { budget = max budget budget_min; bytes = 0; clock = 0; entries = [] }
