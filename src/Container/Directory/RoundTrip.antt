-- ===== src/Container/Directory/RoundTrip.antt =====
-- `read_directory` on what `encode_directory` wrote.
use turndb.Shared.{
  ℕ, ◌+◌, ◌-◌, ◌^◌, ◌≤◌, ◌<◌, ◌≡◌, refl, ap, ◌∙◌, true, false, not-false, ◌==◌, ltb, List, [], ◌∷◌,
  ◌++◌, append-nil, append_assoc, length, length-append, take-length-append, drop-length-append,
  All, Option, some, Bytes, bytes_lt, is_utf8, ok, arith, >>=-eq-ok, bail_if-eq-ok, bail_if,
}
use turndb.Shared.Words.{to_le_bytes, length-to_le_bytes, from-to_le_bytes}
use turndb.Shared.Maps.{find, contains, IsBelow, find-IsBelow, insert-IsBelow}
use turndb.Shared.Maps.{IsBelow-trans, IsBelow-append}
use turndb.Varint.{varint, get-put_varint}
use turndb.Container.Superblock.{Superblock}
use turndb.Container.Names.{max_name, validate_name}
use turndb.Container.Directory.Encode.{
  max_member_extents, Extent, Member, Members, FreeExtent, put_extents, put_member, put_members,
  put_free,
}
use turndb.Container.Directory.Decode.{
  take_bytes, read_xsum, out_of_order, get_extents, is_outside, check_extents, get_name, get_member,
  get_members, get_free,
}
use turndb.Container.Directory.WellFormed.{
  IsInside, total, IsMember, IsEntry, IsSummed, IsFree, IsAscending,
}

pub take_bytes-append :
    (b rest : Bytes) (n : ℕ) → length b ≡ n → take_bytes (b ++ rest) n ≡ ok (b, rest)
unfolding take_bytes
take_bytes-append b rest n e =
    let long : ltb (length (b ++ rest)) (length b) ≡ false =
      ground (arith, length-append {0} b rest) in
    rw (← e, long, take-length-append b rest, drop-length-append b rest) refl

read_xsum-append :
    (x : ℕ) (rest : Bytes) → x < 2 ^ 32 → read_xsum (to_le_bytes 4 x ++ rest) ≡ ok (x, rest)
unfolding read_xsum
read_xsum-append x rest h =
    rw (take_bytes-append (to_le_bytes 4 x) rest 4 (length-to_le_bytes 4 x), from-to_le_bytes 4 x h)
      refl

validate_name-short : (name : Bytes) → validate_name name ≡ ok tt → length name ≤ max_name
unfolding validate_name
validate_name-short name h =
    let (_, _, h) = >>=-eq-ok (bail_if (length name == 0) _) _ h in
    let (_, short, _) = >>=-eq-ok (bail_if (ltb max_name (length name)) _) _ h in
    let inside = bail_if-eq-ok (ltb max_name (length name)) _ short in ground arith

get_name-append :
    (previous : Option Bytes) (name rest : Bytes)
    → validate_name name ≡ ok tt
    → is_utf8 name ≡ true
    → out_of_order previous name ≡ false
    → get_name previous (varint (length name) ++ (name ++ rest)) ≡ ok (name, rest)
unfolding get_name
get_name-append previous name rest valid text after =
    let short = validate_name-short name valid in
    let fits : ltb max_name (length name) ≡ false = ground arith in
    rw
      (
        get-put_varint (length name) (name ++ rest) (omega arith),
        fits,
        take_bytes-append name rest (length name) refl,
        text,
        valid,
        after,
      )
      refl

module _ (sb : Superblock) (small : sb.dir_off < 2 ^ 64) where
  is_outside-IsInside : (e : Extent) → IsInside sb.dir_off e → is_outside sb e.0 (e.0 + e.1) ≡ false
  is_outside-IsInside e h = ground (arith, h.behind_slots, h.aligned, h.inside)

  check_extents-IsInside :
      (extents : List Extent) → All (IsInside sb.dir_off) extents → check_extents sb extents ≡ ok tt
  unfolding check_extents
  check_extents-IsInside [] h = refl
  check_extents-IsInside ((off, len) ∷ extents) h =
      let fits : ltb (2 ^ 64 - 1) (off + len) ≡ false = ground (arith, h.0.inside) in
      rw (fits, is_outside-IsInside (off, len) h.0) (check_extents-IsInside extents h.1)

  get_extents-append :
      (extents : List Extent) (len : ℕ) (rest : Bytes)
      → All (IsInside sb.dir_off) extents
      → len + total extents < 2 ^ 64
      → get_extents (length extents) len (put_extents extents ++ rest)
        ≡ ok (extents, len + total extents, rest)
  unfolding get_extents put_extents
  get_extents-append [] len rest h fits =
      ap (λ (n : ℕ). ok ([], n, rest)) {y = len + 0} (omega arith)
  get_extents-append ((off, ext_len) ∷ extents) len rest h fits =
      let live : (ext_len == 0) ≡ false = ground (arith, h.0.live) in
      let room : ltb (2 ^ 64 - 1) (len + ext_len) ≡ false = ground arith in
      let sum : len + ext_len + total extents ≡ len + (ext_len + total extents) = omega arith in
      rw
        (
          append_assoc (varint off) (varint ext_len ++ put_extents extents) rest,
          append_assoc (varint ext_len) (put_extents extents) rest,
          get-put_varint off (varint ext_len ++ (put_extents extents ++ rest))
              (omega (arith, h.0.inside)),
          get-put_varint ext_len (put_extents extents ++ rest) (omega (arith, h.0.inside)),
          live,
          room,
          get_extents-append extents (len + ext_len) rest h.1 (omega arith),
          sum,
        )
        refl

  get_member-append :
      (m : Member) (rest : Bytes)
      → IsMember sb.dir_off m
      → m.xsum < 2 ^ 32
      → get_member sb
          (varint (length m.extents) ++ (put_extents m.extents ++ (to_le_bytes 4 m.xsum ++ rest)))
        ≡ ok (m, rest)
  unfolding get_member
  get_member-append m rest h summed =
      let few : ltb max_member_extents (length m.extents) ≡ false = ground (arith, h.few) in
      let sum : 0 + total m.extents ≡ m.len = omega (arith, h.len) in
      rw
        (
          get-put_varint (length m.extents)
              (put_extents m.extents ++ (to_le_bytes 4 m.xsum ++ rest)) (omega (arith, h.few)),
          few,
          get_extents-append m.extents 0 (to_le_bytes 4 m.xsum ++ rest) h.inside
              (omega (arith, h.len, h.fits)),
          read_xsum-append m.xsum rest summed,
          check_extents-IsInside m.extents h.inside,
          sum,
        )
        refl

  put_members_split :
      (name : Bytes) (m : Member) (dir : Members) (rest : Bytes)
      → put_members ((name, m) ∷ dir) ++ rest
        ≡ varint (length name)
          ++ (name
              ++ (varint (length m.extents)
                  ++ (put_extents m.extents
                      ++ (to_le_bytes 4 m.xsum ++ (put_members dir ++ rest)))))
  unfolding put_members put_member
  put_members_split name m dir rest = simp append_assoc

  -- `acc` holds the members in front, whose names are not above the previous one.
  pub get_members-append :
      (dir : Members) (previous : Option Bytes) (acc : Members) (rest : Bytes)
      → All (IsEntry sb.dir_off) dir
      → All IsSummed dir
      → IsAscending previous dir
      → ((name : Bytes) → out_of_order previous name ≡ false → IsBelow name acc)
      → get_members sb (length dir) previous acc (put_members dir ++ rest) ≡ ok (acc ++ dir, rest)
  unfolding get_members
  get_members-append [] previous acc rest h sums up below =
      unfold put_members in rw (append-nil acc) refl
  get_members-append ((name, m) ∷ dir) previous acc rest h sums up below =
      let front = below name up.0 in
      let fresh : contains (find name acc) ≡ false = rw (find-IsBelow name acc front) refl in
      rw
        (
          put_members_split name m dir rest,
          get_name-append previous name
              (varint (length m.extents)
                ++ (put_extents m.extents ++ (to_le_bytes 4 m.xsum ++ (put_members dir ++ rest))))
              h.0.valid h.0.text up.0,
          get_member-append m (put_members dir ++ rest) h.0.member sums.0,
          fresh,
          insert-IsBelow name m acc front,
        )
        (get_members-append dir (some name) (acc ++ (name, m) ∷ []) rest h.1 sums.1 up.1
            (λ later above.
              let next = not-false (bytes_lt name later) above in
              IsBelow-append later acc ((name, m) ∷ []) (IsBelow-trans name later acc next front)
                (next, tt))
          ∙ ap (λ (d : Members). ok (d, rest)) (append_assoc acc ((name, m) ∷ []) dir))

  pub get_free-append :
      (free : List FreeExtent) (rest : Bytes)
      → sb.seq < 2 ^ 64
      → All (IsFree sb.dir_off sb.seq) free
      → get_free sb (length free) (put_free free ++ rest) ≡ ok (free, rest)
  unfolding get_free put_free
  get_free-append [] rest seq h = refl
  get_free-append ((off, len, freed_seq) ∷ free) rest seq h =
      let past : ltb sb.seq freed_seq ≡ false = ground (arith, h.0.freed) in
      let fits : ltb (2 ^ 64 - 1) (off + len) ≡ false = ground (arith, h.0.inside.inside) in
      let live : (len == 0) ≡ false = ground (arith, h.0.inside.live) in
      let bound = h.0.inside.inside in
      rw
        (
          append_assoc (varint off) (varint len ++ (varint freed_seq ++ put_free free)) rest,
          append_assoc (varint len) (varint freed_seq ++ put_free free) rest,
          append_assoc (varint freed_seq) (put_free free) rest,
          get-put_varint off (varint len ++ (varint freed_seq ++ (put_free free ++ rest)))
              (omega (arith, bound)),
          get-put_varint len (varint freed_seq ++ (put_free free ++ rest)) (omega (arith, bound)),
          get-put_varint freed_seq (put_free free ++ rest) (omega (arith, h.0.freed)),
          past,
          fits,
          live,
          is_outside-IsInside (off, len) h.0.inside,
          get_free-append free rest seq h.1,
        )
        refl
