-- ===== src/Container/Directory/Accepted.antt =====
-- What `read_directory` has checked of a payload that it accepts.
use turndb.Shared.{
  ℕ, zero, suc, ◌+◌, ◌-◌, ◌^◌, ◌<◌, ◌≡◌, refl, sym, ap, ◌∙◌, Bool, true, false, not, not-false,
  ◌==◌, ◌||◌, ltb, List, [], ◌∷◌, ◌++◌, append-nil, append_assoc, length, All, All-append_left,
  Option, none, some, Bytes, bytes_lt, is_utf8, Result, ok, err, arith, OnOk, >>=-OnOk,
  bail_if-OnOk, OnOk-ok,
}
use turndb.Shared.Maps.{find, contains, IsBelow, insert-IsBelow}
use turndb.Shared.Maps.{IsBelow-trans, IsBelow-append}
use turndb.ReadLimits.{ReadLimits, admit_directory_entries}
use turndb.Varint.{get_varint}
use turndb.Container.Superblock.{Superblock}
use turndb.Container.Names.{max_name, validate_name}
use turndb.Container.Directory.Encode.{
  max_member_extents, max_free_extents, Extent, Member, Members, FreeExtent,
}
use turndb.Container.Directory.Ranges.{content_ranges, check_windows, sort_unstable}
use turndb.Container.Directory.Decode.{
  take_bytes, read_xsum, out_of_order, get_extents, is_outside, check_extents, get_name, get_member,
  get_members, get_free, parse_directory,
}
use turndb.Container.Directory.WellFormed.{
  IsInside, total, IsMember, IsEntry, IsFree, IsAscending, AreApart, IsDirectory,
}
use turndb.Container.Directory.Disjoint.{check_windows-AreApart}

-- What `get_extents` returns of `n` extents behind `len` bytes.
abbrev Extents : ℕ → ℕ → List Extent × ℕ × Bytes → Type 0
Extents n len (extents, sum, rest) =
    (length extents ≡ n) × (len + total extents ≡ sum) × (sum < 2 ^ 64) × All (λ e. 0 < e.1) extents

get_extents-Extents :
    (n len : ℕ) (payload : Bytes) → len < 2 ^ 64 → OnOk (Extents n len) (get_extents n len payload)
unfolding get_extents
get_extents-Extents zero len payload small = (refl, omega arith, small, tt)
get_extents-Extents (suc n) len payload small = >>=-OnOk _ (get_varint payload) _ λ (off, behind) _.
    >>=-OnOk _ (get_varint behind) _ λ (ext_len, beyond) _.
      bail_if-OnOk _ (ext_len == 0) _ _ λ live.
        bail_if-OnOk _ (ltb (2 ^ 64 - 1) (len + ext_len)) _ _ λ fits.
          >>=-OnOk _ (get_extents n (len + ext_len) beyond) _ λ (extents, sum, rest) deep.
            let (count, adds, bound, all) =
              OnOk-ok (Extents n (len + ext_len)) _
                (get_extents-Extents n (len + ext_len) beyond (ground arith)) deep in
            (ap suc count, omega (arith, adds), bound, (ground arith, all))

outside-inv :
    (sb : Superblock) (e : Extent)
    → is_outside sb e.0 (e.0 + e.1) ≡ false
    → 0 < e.1
    → IsInside sb.dir_off e
outside-inv sb e h live = record {
  behind_slots = ground arith;
  aligned = ground arith;
  inside = ground arith;
  live = live;
}

check_extents-inv :
    (sb : Superblock) (extents : List Extent)
    → All (λ e. 0 < e.1) extents
    → OnOk (λ _. All (IsInside sb.dir_off) extents) (check_extents sb extents)
unfolding check_extents
check_extents-inv sb [] live = tt
check_extents-inv sb ((off, len) ∷ extents) live =
    bail_if-OnOk _ (ltb (2 ^ 64 - 1) (off + len)) _ _ λ _.
      bail_if-OnOk _ (is_outside sb off (off + len)) _ _ λ inside.
        after (check_extents sb extents) (check_extents-inv sb extents live.1)
          (outside-inv sb (off, len) inside live.0)
  where
    after :
        (r : Result (Unit {0}))
        → OnOk (λ _. All (IsInside sb.dir_off) extents) r
        → IsInside sb.dir_off (off, len)
        → OnOk (λ _. All (IsInside sb.dir_off) ((off, len) ∷ extents)) r
    after (ok a) h k = (k, h)
    after (err e) h k = tt

get_member-IsMember :
    (sb : Superblock) (payload : Bytes)
    → OnOk (λ (m, rest). IsMember sb.dir_off m) (get_member sb payload)
unfolding get_member
get_member-IsMember sb payload = >>=-OnOk _ (get_varint payload) _ λ (n_extents, behind) _.
    bail_if-OnOk _ (ltb max_member_extents n_extents) _ _ λ few.
      >>=-OnOk _ (get_extents n_extents 0 behind) _ λ (extents, len, beyond) read.
        >>=-OnOk _ (read_xsum beyond) _ λ (xsum, rest) _.
          >>=-OnOk _ (check_extents sb extents) _ λ _ checked.
            let (count, adds, bound, live) =
              OnOk-ok (Extents n_extents 0) _ (get_extents-Extents n_extents 0 behind (omega arith))
                read in
            let inside =
              OnOk-ok (λ _. All (IsInside sb.dir_off) extents) _ (check_extents-inv sb extents live)
                checked in
            record { few = ground arith; inside = inside; len = omega (arith, adds); fits = bound }

get_name-inv :
    (previous : Option Bytes) (payload : Bytes)
    → OnOk
        (λ (name, rest).
          (validate_name name ≡ ok tt)
          × (is_utf8 name ≡ true)
          × (out_of_order previous name ≡ false))
        (get_name previous payload)
unfolding get_name
get_name-inv previous payload = >>=-OnOk _ (get_varint payload) _ λ (name_len, behind) _.
    bail_if-OnOk _ (ltb max_name name_len) _ _ λ _.
      >>=-OnOk _ (take_bytes behind name_len) _ λ (name, rest) _.
        bail_if-OnOk _ (not (is_utf8 name)) _ _ λ text. >>=-OnOk _ (validate_name name) _ λ _ valid.
          bail_if-OnOk _ (out_of_order previous name) _ _
            λ up. (valid, not-false (is_utf8 name) text, up)

-- What `get_members` adds to the members `acc`.
abbrev Added : Superblock → ℕ → Option Bytes → Members → Members × Bytes → Type 0
Added sb n previous acc (dir, rest) =
    (new : Members) × (dir ≡ acc ++ new)
    × (length new ≡ n)
    × All (IsEntry sb.dir_off) new
    × IsAscending previous new

get_members-Added :
    (sb : Superblock) (n : ℕ) (previous : Option Bytes) (acc : Members) (payload : Bytes)
    → ((name : Bytes) → out_of_order previous name ≡ false → IsBelow name acc)
    → OnOk (Added sb n previous acc) (get_members sb n previous acc payload)
unfolding get_members
get_members-Added sb zero previous acc payload below = ([], sym (append-nil acc), refl, tt, tt)
get_members-Added sb (suc n) previous acc payload below =
    >>=-OnOk _ (get_name previous payload) _ λ (name, behind) named.
      >>=-OnOk _ (get_member sb behind) _ λ (m, beyond) got.
        bail_if-OnOk _ (contains (find name acc)) _ _ λ _.
          let (valid, text, up) =
            OnOk-ok
              (λ (name, rest).
                (validate_name name ≡ ok tt)
                × (is_utf8 name ≡ true)
                × (out_of_order previous name ≡ false))
              _ (get_name-inv previous payload) named in
          let member =
            OnOk-ok (λ (m, rest). IsMember sb.dir_off m) _ (get_member-IsMember sb behind) got in
          let front = below name up in
          let next =
            get_members-Added sb n (some name) (acc ++ (name, m) ∷ []) beyond (λ later above.
              let lt = not-false (bytes_lt name later) above in
              IsBelow-append later acc ((name, m) ∷ []) (IsBelow-trans name later acc lt front)
                (lt, tt)) in
          rw (insert-IsBelow name m acc front) (
            after (get_members sb n (some name) (acc ++ (name, m) ∷ []) beyond) name m next
              (record { valid = valid; text = text; member = member }) up)
  where
    after :
        (r : Result (Members × Bytes)) (name : Bytes) (m : Member)
        → OnOk (Added sb n (some name) (acc ++ (name, m) ∷ [])) r
        → IsEntry sb.dir_off (name, m)
        → out_of_order previous name ≡ false
        → OnOk (Added sb (suc n) previous acc) r
    after (ok (dir, rest)) name m (new, whole, count, all, up) entry above = (
      (name, m) ∷ new,
      whole ∙ append_assoc acc ((name, m) ∷ []) new,
      ap suc count,
      (entry, all),
      (above, up),
    )
    after (err e) name m h entry above = tt

get_free-inv :
    (sb : Superblock) (n : ℕ) (payload : Bytes)
    → OnOk
        (λ (free, rest). (length free ≡ n) × All (IsFree sb.dir_off sb.seq) free)
        (get_free sb n payload)
unfolding get_free
get_free-inv sb zero payload = (refl, tt)
get_free-inv sb (suc n) payload = >>=-OnOk _ (get_varint payload) _ λ (off, a) _.
    >>=-OnOk _ (get_varint a) _ λ (len, b) _. >>=-OnOk _ (get_varint b) _ λ (freed_seq, c) _.
      bail_if-OnOk _ (ltb sb.seq freed_seq) _ _ λ past.
        bail_if-OnOk _ (ltb (2 ^ 64 - 1) (off + len)) _ _ λ _.
          bail_if-OnOk _ (len == 0 || is_outside sb off (off + len)) _ _ λ inside.
            >>=-OnOk _ (get_free sb n c) _ λ (free, rest) deep.
              let (count, all) =
                OnOk-ok (λ (free, rest). (length free ≡ n) × All (IsFree sb.dir_off sb.seq) free) _
                  (get_free-inv sb n c) deep in
              let (live, within) = neither (len == 0) (is_outside sb off (off + len)) inside in
              (
                ap suc count,
                (
                  record {
                    inside = outside-inv sb (off, len) within (ground arith);
                    freed = ground arith;
                  },
                  all,
                ),
              )
  where
    neither : (a b : Bool) → (a || b) ≡ false → (a ≡ false) × (b ≡ false)
    neither true b e = cc
    neither false b e = (refl, e)

abbrev Accepted : Superblock → Members × List FreeExtent → Type 0
Accepted sb (dir, free) = IsDirectory sb.dir_off sb.seq dir free × (length dir ≡ sb.n_entries)

AreApart-front : (xs ys : List Extent) → AreApart (xs ++ ys) → AreApart xs
AreApart-front [] ys h = tt
AreApart-front (x ∷ xs) ys h = (All-append_left _ xs ys h.0, AreApart-front xs ys h.1)

parse_directory-Accepted :
    (read_limits : ReadLimits) (sb : Superblock) (payload : Bytes)
    → OnOk (Accepted sb) (parse_directory read_limits sb payload)
unfolding parse_directory
parse_directory-Accepted read_limits sb payload = >>=-OnOk _ (get_varint payload) _ λ (n, a) _.
    bail_if-OnOk _ (not (n == sb.n_entries)) _ _ λ counted.
      >>=-OnOk _ (get_members sb n none [] a) _ λ (dir, b) listed.
        >>=-OnOk _ (get_varint b) _ λ (n_free, c) _.
          bail_if-OnOk _ (ltb max_free_extents n_free) _ _ λ few.
            >>=-OnOk _ (admit_directory_entries read_limits n_free) _ λ _ _.
              >>=-OnOk _ (get_free sb n_free c) _ λ (free, rest) freed.
                bail_if-OnOk _ (not (length rest == 0)) _ _ λ _.
                  >>=-OnOk _
                    (check_windows
                      (sort_unstable (content_ranges dir free ++ (sb.dir_off, sb.dir_stored) ∷ [])))
                    _
                    λ _ checked.
                      let (new, whole, count, all, up) =
                        OnOk-ok (Added sb n none []) _
                          (get_members-Added sb n none [] a (λ name _. tt)) listed in
                      let (count_free, all_free) =
                        OnOk-ok
                          (λ (free, rest).
                            (length free ≡ n_free) × All (IsFree sb.dir_off sb.seq) free)
                          _ (get_free-inv sb n_free c) freed in
                      let ranges = check_windows-AreApart _ checked in
                      (
                        record {
                          members = rw whole all;
                          ascending = rw whole up;
                          freed = all_free;
                          few = ground arith;
                          apart = AreApart-front (content_ranges dir free) _ ranges;
                        },
                        rw whole (ground arith),
                      )

-- A payload that `read_directory` accepts decodes to a well-formed directory: names are valid texts
-- in strictly ascending order, extents are not empty, aligned and inside the member region, a
-- member's length is that of its extents, no free extent is from a commit to come, and no byte of
-- the region is claimed twice. It has as many members as the superblock says.
pub parse_directory-IsDirectory :
    (read_limits : ReadLimits) (sb : Superblock) (payload : Bytes) {dir : Members}
    {free : List FreeExtent}
    → parse_directory read_limits sb payload ≡ ok (dir, free)
    → IsDirectory sb.dir_off sb.seq dir free × (length dir ≡ sb.n_entries)
parse_directory-IsDirectory read_limits sb payload h =
    OnOk-ok (Accepted sb) _ (parse_directory-Accepted read_limits sb payload) h
