-- ===== src/Cache/Budget.antt =====
-- The bytes that the cache counts, and its budget.
use turndb.Shared.{
  ℕ, zero, suc, ◌+◌, ◌≤◌, max, ◌≡◌, refl, subst, ap, ◌∙◌, ◌⊎◌, inl, inr, ltb, List, [], ◌∷◌, length,
  Option, none, some, arith, Bool-cases,
}
use turndb.Cache.Defs.{
  Kind, Held, Entry, SectionCache, lookup, coldest, weight, release, remove, evict, put, give, get,
}
use turndb.Cache.Entries.{lookup_first, lookup-coldest, coldest-none, weigh, weigh-without}

module _ (size : ℕ) where
  -- The cache counts the bytes of its entries.
  abbrev pub IsBalanced : SectionCache → Type 0
  IsBalanced c = c.bytes ≡ weigh size c.entries

  -- What a removal leaves, when `more` bytes are counted besides those of the entries.
  abbrev pub Removed : ℕ → SectionCache → SectionCache → Type 0
  Removed more c later =
      (later.bytes ≡ more + weigh size later.entries)
      × (later.bytes ≤ c.bytes)
      × (length later.entries ≤ length c.entries)
      × (later.budget ≡ c.budget)

  released :
      (more part : ℕ) (kind : Kind) (c : SectionCache) (o : Option Entry)
      → c.bytes ≡ more + weigh size c.entries
      → lookup part kind c.entries ≡ o
      → Removed more c (release size part kind c o)
  released more part kind c none counted found = (counted, omega arith, omega arith, refl)
  released more part kind c (some gone) counted found =
      let (sum, fewer) = weigh-without size part kind c.entries gone found in
      (omega (arith, counted, sum), omega arith, omega (arith, fewer), refl)

  pub remove-Removed :
      (more part : ℕ) (kind : Kind) (c : SectionCache)
      → c.bytes ≡ more + weigh size c.entries
      → Removed more c (remove size part kind c)
  unfolding remove
  remove-Removed more part kind c counted =
      released more part kind c (lookup part kind c.entries) counted refl

  -- Removing the coldest entry leaves one entry less.
  length-remove :
      (c : SectionCache) (v : Entry)
      → coldest c.entries ≡ some v
      → suc (length (remove size v.part v.kind c).entries) ≡ length c.entries
  unfolding remove
  length-remove c v cold =
      let (gone, found) = lookup-coldest c.entries v cold in
      let (sum, fewer) = weigh-without size v.part v.kind c.entries gone found in
      ap (λ (o : Option Entry). suc (length (release size v.part v.kind c o).entries)) found ∙ fewer

  -- What eviction leaves: room for `w` bytes, or nothing.
  abbrev Evicted : ℕ → SectionCache → SectionCache → Type 0
  Evicted w c later =
      IsBalanced later
      × (later.budget ≡ c.budget)
      × ((later.bytes + w ≤ c.budget) ⊎ (later.bytes ≡ 0))

  evict-Evicted :
      (rounds w : ℕ) (c : SectionCache)
      → length c.entries ≤ rounds
      → IsBalanced c
      → Evicted w c (evict size rounds w c)
  unfolding evict weigh
  evict-Evicted zero w c enough counted = (
    counted,
    refl,
    inr (counted ∙ ap (λ (es : List Entry). weigh size es) (no_entry c.entries enough)),
  )
    where
      no_entry : (es : List Entry) → length es ≤ 0 → es ≡ []
      no_entry [] le = refl
      no_entry (e ∷ es) le = elim le [ ]
  evict-Evicted (suc rounds) w c enough counted = elim (Bool-cases (ltb c.budget (c.bytes + w))) [
    | inl over ↦ rw over (
        by_victim (coldest c.entries) refl
          (λ v. evict-Evicted rounds w (remove size v.part v.kind c)))
    | inr fits ↦ rw fits (counted, refl, inl (ground arith))
  ]
    where
      next : Option Entry → SectionCache
      next o = elim o [
        | none ↦ c
        | some victim ↦ evict size rounds w (remove size victim.part victim.kind c)
      ]

      by_victim :
          (o : Option Entry)
          → coldest c.entries ≡ o
          → ((v : Entry)
              → length (remove size v.part v.kind c).entries ≤ rounds
              → IsBalanced (remove size v.part v.kind c)
              → Evicted w
                  (remove size v.part v.kind c)
                  (evict size rounds w (remove size v.part v.kind c)))
          → Evicted w c (next o)
      by_victim none cold again = (
        counted,
        refl,
        inr (counted ∙ ap (λ (es : List Entry). weigh size es) (coldest-none c.entries cold)),
      )
      by_victim (some v) cold again =
          let (left, lighter, fewer, same) =
            remove-Removed 0 v.part v.kind c (omega (arith, counted)) in
          let (balanced, kept, room) =
            again v (omega (arith, length-remove c v cold)) (omega (arith, left)) in
          (
            balanced,
            kept ∙ same,
            subst (λ (b : ℕ). (((next (some v)).bytes + w ≤ b) ⊎ ((next (some v)).bytes ≡ 0))) same
                room,
          )

-- `put` on a cache that counts the bytes of its entries keeps that count and the budget; what it
-- then holds is within the budget, or no more than the entry put, and `get` returns that entry.
pub put-IsBalanced :
    (size part : ℕ) (kind : Kind) (v : Held) (c : SectionCache)
    → IsBalanced size c
    → IsBalanced size (put size part kind v c)
      × ((put size part kind v c).budget ≡ c.budget)
      × ((put size part kind v c).bytes ≤ max c.budget (weight size v))
      × ((get part kind (put size part kind v c)).0 ≡ some v)
unfolding put get weigh
put-IsBalanced size part kind v c counted =
    let w : ℕ = weight size v in
    let room = evict size (length c.entries) w c in
    let (balanced, same, fits) = evict-Evicted size (length c.entries) w c (omega arith) counted in
    let (left, lighter, fewer, kept) =
      remove-Removed size w part kind
        (record room { clock = room.clock + 1; bytes = room.bytes + w })
        (omega (arith, balanced)) in
    let full : SectionCache = record room { clock = room.clock + 1; bytes = room.bytes + w } in
    let placed : Entry = record {
      part = part;
      kind = kind;
      tick = (remove size part kind full).clock;
      held = v;
    } in
    let stored = put size part kind v c in
    let ticked : SectionCache = record stored { clock = stored.clock + 1 } in
    (
      omega (arith, left),
      kept ∙ same,
      ground (arith, fits, lighter),
      ap (λ (o : Option Entry). (give part kind ticked o).0)
          (lookup_first placed (remove size part kind full).entries),
    )
