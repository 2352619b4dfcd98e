-- ===== src/IdCol/Stream.antt =====
-- The stream that `build` writes, and the walk over it.
use turndb.Shared.{
  ℕ, zero, suc, ◌+◌, ◌-◌, ◌%◌, ◌^◌, ◌≤◌, ◌<◌, ◌≡◌, refl, sym, ◌∙◌, ◌⊎◌, inl, inr, Bool, true, false,
  not, ◌==◌, ltb, if◌then◌else◌, List, [], ◌∷◌, ◌++◌, append_assoc, append-nil, length,
  length-append, length-drop, take, drop, take-append-drop, take-append_eq, drop-append_eq,
  get_elem?, some, All, Bytes, bytes_lt, Result, ok, >>=-eq-ok, bail_if, arith, ◌&&◌, id_order,
}
use turndb.Varint.{varint, get-put_varint}
use turndb.IdCol.Defs.{
  restart, shared_prefix, shared_at, entry, build_from, checked_stream_end, next_entry, walk,
  iter_from,
}

abbrev pub Short : Bytes → Type 0
Short id = length id < 2 ^ 32

shared_prefix-le : (a b : Bytes) → (shared_prefix a b ≤ length a) × (shared_prefix a b ≤ length b)
unfolding shared_prefix
shared_prefix-le [] b = omega arith
shared_prefix-le (x ∷ a) [] = omega arith
shared_prefix-le (x ∷ a) (y ∷ b) = ground (arith, shared_prefix-le a b)

-- The shared prefix of the one is that of the other.
take-shared_prefix : (a b : Bytes) → take (shared_prefix a b) a ≡ take (shared_prefix a b) b
unfolding shared_prefix
take-shared_prefix [] b = refl
take-shared_prefix (x ∷ a) [] = refl
take-shared_prefix (x ∷ a) (y ∷ b) = ground (arith, take-shared_prefix a b)

-- What a reader holds before the entry at `i`: the id before it, or anything at a restart point.
abbrev pub Ready : ℕ → Bytes → Bytes → Type 0
Ready i prev held = (i % restart ≡ 0) ⊎ (held ≡ prev)

pub shared_fits :
    (i : ℕ) (prev held cur : Bytes)
    → Ready i prev held
    → (shared_at i prev cur ≤ length held)
      × (shared_at i prev cur ≤ length cur)
      × (take (shared_at i prev cur) held ++ drop (shared_at i prev cur) cur ≡ cur)
unfolding shared_at
shared_fits i prev held cur (inl e) = ground arith
shared_fits i prev held cur (inr e) = rw e (prefix_fits (i % restart == 0))
  where
    prefix : ℕ
    prefix = shared_prefix prev cur

    prefix_fits :
        (b : Bool)
        → ((if b then 0 else prefix) ≤ length prev)
          × ((if b then 0 else prefix) ≤ length cur)
          × (take (if b then 0 else prefix) prev ++ drop (if b then 0 else prefix) cur ≡ cur)
    prefix_fits true = (omega arith, omega arith, refl)
    prefix_fits false =
        let (p, q) = shared_prefix-le prev cur in
        (p, q, rw (take-shared_prefix prev cur) (take-append-drop prefix cur))

pub entry-append :
    (i : ℕ) (prev cur rest : Bytes)
    → entry i prev cur ++ rest
      ≡ varint (shared_at i prev cur)
        ++ (varint (length cur - shared_at i prev cur) ++ (drop (shared_at i prev cur) cur ++ rest))
unfolding entry
entry-append i prev cur rest = simp append_assoc

-- An entry is read back as the id it was made of.
pub next_entry-entry :
    (i : ℕ) (prev held cur rest : Bytes)
    → Ready i prev held
    → Short cur
    → next_entry held (entry i prev cur ++ rest) ≡ ok (cur, rest)
unfolding next_entry
next_entry-entry i prev held cur rest ready short =
    let shared = shared_at i prev cur in
    let suffix = drop shared cur in
    let (low, high, whole) = shared_fits i prev held cur ready in
    rw
      (
        entry-append i prev cur rest,
        get-put_varint shared (varint (length cur - shared) ++ (drop shared cur ++ rest))
            (omega arith),
        get-put_varint (length cur - shared) (drop shared cur ++ rest) (omega arith),
        take-append_eq (drop shared cur) rest (length cur - shared) (length-drop shared cur),
        drop-append_eq (drop shared cur) rest (length cur - shared) (length-drop shared cur),
        whole,
      )
      (ground (arith, length-append {0} suffix rest, length-drop shared cur))

-- The entries from the id at index `i` on, behind the id `prev`.
unfoldable pub entries_from : ℕ → Bytes → List Bytes → Bytes
entries_from i prev [] = []
entries_from i prev (cur ∷ ids) = entry i prev cur ++ entries_from (i + 1) cur ids

-- The offsets of the restart points among them, when the first entry stands at `at`.
unfoldable pub restarts_from : ℕ → ℕ → Bytes → List Bytes → List ℕ
restarts_from i at prev [] = []
restarts_from i at prev (cur ∷ ids) =
    let rest = restarts_from (i + 1) (at + length (entry i prev cur)) cur ids in
    if i % restart == 0 then at ∷ rest else rest

-- Every id is above the one before it; the first one of a column has none.
unfoldable pub AboveFrom : ℕ → Bytes → List Bytes → Type 0
AboveFrom i prev [] = Unit
AboveFrom i prev (cur ∷ ids) = (0 < i → bytes_lt prev cur ≡ true) × AboveFrom (i + 1) cur ids

abbrev built : Bytes → List ℕ → Result (Bytes × List ℕ)
built a b = ok (a, b)

pair_eq : {a a' : Bytes} {b b' : List ℕ} → built a b ≡ ok (a', b') → (a' ≡ a) × (b' ≡ b)
pair_eq h = (cc, cc)

-- What a successful `build` has written.
pub build_from-inv :
    (i : ℕ) (prev stream : Bytes) (restarts : List ℕ) (ids : List Bytes) {s : Bytes} {r : List ℕ}
    → build_from i prev stream restarts ids ≡ ok (s, r)
    → (s ≡ stream ++ entries_from i prev ids)
      × (r ≡ restarts ++ restarts_from i (length stream) prev ids)
      × AboveFrom i prev ids
unfolding build_from entries_from restarts_from AboveFrom
build_from-inv i prev stream restarts [] {s} {r} h =
    let (e, f) = pair_eq h in (e ∙ sym (append-nil stream), f ∙ sym (append-nil restarts), tt)
build_from-inv i prev stream restarts (cur ∷ ids) h =
    let (u, ordered, k) = >>=-eq-ok (bail_if (ltb 0 i && not (bytes_lt prev cur)) id_order) _ h in
    let (end, counted, k) =
      >>=-eq-ok (checked_stream_end (length stream) (length (entry i prev cur))) _ k in
    let (e, f, above) = build_from-inv (i + 1) cur (stream ++ entry i prev cur) _ ids k in
    (
      e ∙ append_assoc stream (entry i prev cur) (entries_from (i + 1) cur ids),
      f ∙ restarts_step (i % restart == 0),
      (λ p. ground arith, above),
    )
  where
    later : ℕ → List ℕ
    later at = restarts_from (i + 1) at cur ids

    at_next : length (stream ++ entry i prev cur) ≡ length stream + length (entry i prev cur)
    at_next = length-append stream (entry i prev cur)

    restarts_step :
        (b : Bool)
        → (if b then restarts ++ length stream ∷ [] else restarts)
            ++ later (length (stream ++ entry i prev cur))
          ≡ restarts
            ++ (if b
                then length stream ∷ later (length stream + length (entry i prev cur))
                else later (length stream + length (entry i prev cur)))
    restarts_step true = rw at_next (
        append_assoc restarts (length stream ∷ [])
          (later (length stream + length (entry i prev cur))))
    restarts_step false = rw at_next refl

-- The whole stream is read back.
pub iter_from-entries :
    (i : ℕ) (prev held : Bytes) (ids : List Bytes)
    → Ready i prev held
    → All Short ids
    → iter_from (length ids) held (entries_from i prev ids) ≡ ok (ids, [])
unfolding iter_from entries_from
iter_from-entries i prev held [] ready short = refl
iter_from-entries i prev held (cur ∷ ids) ready short =
    rw
      (
        next_entry-entry i prev held cur (entries_from (i + 1) cur ids) ready short.0,
        iter_from-entries (i + 1) cur cur ids (inr refl) short.1,
      )
      refl

-- A walk ends at the id that it counts to.
pub walk-entries :
    (k i : ℕ) (prev held : Bytes) (ids : List Bytes) {id : Bytes}
    → Ready i prev held
    → All Short ids
    → get_elem? ids k ≡ some id
    → walk (suc k) held (entries_from i prev ids) ≡ ok id
unfolding walk entries_from
walk-entries k i prev held [] ready short h = cc
walk-entries zero i prev held (cur ∷ ids) ready short h =
    rw (next_entry-entry i prev held cur (entries_from (i + 1) cur ids) ready short.0) cc
walk-entries (suc k) i prev held (cur ∷ ids) ready short h =
    rw (next_entry-entry i prev held cur (entries_from (i + 1) cur ids) ready short.0)
      (walk-entries k (i + 1) cur cur ids (inr refl) short.1 h)
