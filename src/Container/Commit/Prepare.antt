-- ===== src/Container/Commit/Prepare.antt =====
-- `commit_staged` in front of its writes.
use turndb.Shared.{
  ℕ, ◌+◌, ◌^◌, ◌≤◌, ◌<◌, ◌≡◌, refl, inl, inr, ltb, List, [], ◌∷◌, length, All, none, Bytes, ok,
  bail_if, OnOk, OnOk-ok, >>=-OnOk, bail_if-OnOk, bail_if-eq-ok, length-append, arith,
  members_over_ceiling, extents_over_ceiling, free_over_ceiling, directory_over_ceiling,
}
use turndb.Shared.Digests.{Digests}
use turndb.Shared.Exec.{lift, Ends, >>=-Ends}
use turndb.Block.Codec
use turndb.Block.Codec.{Zstd, decode-encode_payload}
use turndb.Varint.{varint, varint_cases}
use turndb.Container.Superblock.{region_start, align_up}
use turndb.Container.Align.{align_up-next}
use turndb.Container.Superblock.{max_dir_raw}
use turndb.Container.Directory.Encode.{
  max_free_extents, Extent, Members, FreeExtent, directory_bytes, encode_directory,
  encoded_directory_len,
}
use turndb.Container.Directory.EncodedLength.{IsTypedEntry, IsTypedFree, encode_directory-length}
use turndb.Container.Directory.WellFormed.{IsInside, IsSummed, IsDirectory}
use turndb.Container.Superblock.{max_members, max_dir_stored}
use turndb.Container.Directory.Decode.{Directory}
use turndb.Container.State.{Container, selected_state, next_seq}
use turndb.Container.Staging.{check}
use turndb.Container.Commit.{Prepared, any_scattered, next_free_of, prepare}
use turndb.Container.Commit.Published.{IsPrepared}

All-map {ℓ κ μ} :
    {A : Type ℓ} {P : A → Type κ} {Q : A → Type μ}
    → ((a : A) → P a → Q a)
    → (xs : List A) → All P xs
    → All Q xs
All-map f [] h = tt
All-map f (x ∷ xs) h = (f x h.0, All-map f xs h.1)

-- A directory of a region is one of each larger region.
module _ (end end' : ℕ) (le : end ≤ end') where
  IsInside-larger : (e : Extent) → IsInside end e → IsInside end' e
  IsInside-larger e h = record {
    behind_slots = h.behind_slots;
    aligned = h.aligned;
    inside = omega (arith, le, h.inside);
    live = h.live;
  }

  IsDirectory-larger :
      (seq : ℕ) (dir : Members) (free : List FreeExtent)
      → IsDirectory end seq dir free
      → IsDirectory end' seq dir free
  IsDirectory-larger seq dir free h = record {
    members =
        All-map
          (λ entry k. record {
            valid = k.valid;
            text = k.text;
            member = record {
              few = k.member.few;
              inside = All-map IsInside-larger entry.1.extents k.member.inside;
              len = k.member.len;
              fits = k.member.fits;
            };
          })
          dir h.members;
    ascending = h.ascending;
    freed =
        All-map (λ e k. record { inside = IsInside-larger (e.0, e.1) k.inside; freed = k.freed })
          free h.freed;
    few = h.few;
    apart = h.apart;
  }

-- A handle whose staged directory may be committed: the file's selected state is the handle's, the
-- directory that is to be written is well-formed in the staged region, and the handle's own limits
-- admit it.
pub record IsCommittable (d : Digests) (z : Zstd) (c : Container) : Type 0 where
  pub committed : Directory
  pub selected : selected_state d z c.file c.read_limits ≡ ok (c.sb, c.slot, committed)
  pub behind : region_start ≤ c.tail
  pub directory : IsDirectory c.tail (c.sb.seq + 1) c.dir (next_free_of (c.sb.seq + 1) c)
  pub summed : All IsSummed c.dir
  pub typed : All IsTypedEntry c.dir × All IsTypedFree (next_free_of (c.sb.seq + 1) c)
  pub members : length c.dir ≤ c.read_limits.max_directory_entries
  pub free : length (next_free_of (c.sb.seq + 1) c) ≤ c.read_limits.max_directory_entries
  pub stored : max_dir_stored ≤ c.read_limits.max_stored_frame_bytes
  pub raw : max_dir_raw ≤ c.read_limits.max_decoded_frame_bytes

-- What `prepare` returns over `c`, which it does not change; the end of the directory is checked
-- after its write.
abbrev pub Prepares : Zstd → Container → Prepared → Container → Type 0
Prepares z c p s =
    (s ≡ c)
    × (p.seq ≡ c.sb.seq + 1)
    × (p.next_free ≡ next_free_of (c.sb.seq + 1) c)
    × (p.dir_off + length p.stored < 2 ^ 64 → IsPrepared z c.read_limits c.dir p)

varint-pos : (v : ℕ) → 0 < length (varint v)
varint-pos v = elim (varint_cases v) [
  | inl (_, e) ↦ rw e (omega arith)
  | inr (_, e) ↦ rw e (omega arith)
]

directory_bytes-pos :
    (dir : Members) (free : List FreeExtent) → 0 < length (directory_bytes dir free)
unfolding directory_bytes
directory_bytes-pos dir free =
    omega (arith, varint-pos (length dir), length-append {0} (varint (length dir)) _)

encode_directory-bytes :
    (dir : Members) (free : List FreeExtent)
    → OnOk (λ b. b ≡ directory_bytes dir free) (encode_directory dir free)
unfolding encode_directory
encode_directory-bytes dir free =
    >>=-OnOk _ (encoded_directory_len dir free) _
      λ n _. bail_if-OnOk _ (ltb max_dir_raw n) _ _ λ _. refl

module _ (d : Digests) (z : Zstd) (c : Container) (h : IsCommittable d z c) where
  seq_after : {seq : ℕ} → next_seq c ≡ ok seq → (seq ≡ c.sb.seq + 1) × (seq < 2 ^ 64)
  seq_after e = (ground arith, ground arith)

  plan-IsPrepared :
      (payload stored : Bytes) (codec dir_off : ℕ)
      → c.sb.seq + 1 < 2 ^ 64
      → length c.dir ≤ max_members
      → encode_directory c.dir (next_free_of (c.sb.seq + 1) c) ≡ ok payload
      → Codec.encode z payload none 3 ≡ ok (codec, stored)
      → length stored ≤ max_dir_stored
      → align_up c.tail ≡ ok dir_off
      → dir_off + length stored < 2 ^ 64
      → IsPrepared z c.read_limits c.dir (record {
        seq = c.sb.seq + 1;
        next_free = next_free_of (c.sb.seq + 1) c;
        payload = payload;
        codec = codec;
        stored = stored;
        dir_off = dir_off;
      })
  plan-IsPrepared payload stored codec dir_off counted few encoded compressed small aligned fits =
      let free = next_free_of (c.sb.seq + 1) c in
      let (back, shorter, live, known, verbatim) =
        decode-encode_payload z payload none 3 compressed in
      let bytes =
        OnOk-ok (λ b. b ≡ directory_bytes c.dir free) _ (encode_directory-bytes c.dir free)
          encoded in
      let (up, _, page) = align_up-next c.tail dir_off aligned in
      let some_bytes : 0 < length payload = rw bytes (directory_bytes-pos c.dir free) in
      let (_, bounded) =
        encode_directory-length c.dir free (omega (arith, few)) (omega (arith, h.directory.few))
          h.typed.0 h.typed.1 encoded in
      record {
        payload = bytes;
        decoded = back;
        codec = known;
        verbatim = verbatim;
        live = (live some_bytes, some_bytes);
        stored = (small, omega (arith, small, h.stored));
        raw = (bounded, omega (arith, bounded, h.raw));
        members = (few, h.members);
        free = h.free;
        aligned = page;
        behind = omega (arith, up, h.behind);
        fits = fits;
        seq = (omega arith, counted);
        directory = IsDirectory-larger c.tail dir_off up (c.sb.seq + 1) c.dir free h.directory;
        summed = h.summed;
      }

  pub prepare-Prepares : Ends (Prepares z c) (prepare z c)
  unfolding prepare
  prepare-Prepares = >>=-Ends (Prepares z c) (check next_seq) _ c λ seq counted.
      >>=-Ends (Prepares z c) (lift (bail_if (ltb max_members (length c.dir)) members_over_ceiling))
        _ c
        λ _ few.
          >>=-Ends (Prepares z c) (lift (bail_if (any_scattered c.dir) extents_over_ceiling)) _ c
            λ _ _.
              >>=-Ends (Prepares z c)
                (lift
                  (bail_if (ltb max_free_extents (length (next_free_of seq c))) free_over_ceiling))
                _ c
                λ _ _.
                  >>=-Ends (Prepares z c) (lift (encode_directory c.dir (next_free_of seq c))) _ c
                    λ payload encoded.
                      >>=-Ends (Prepares z c) (lift (Codec.encode z payload none 3)) _ c
                        λ (codec, stored) compressed.
                          >>=-Ends (Prepares z c)
                            (lift
                              (bail_if (ltb max_dir_stored (length stored)) directory_over_ceiling))
                            _ c
                            λ _ small.
                              >>=-Ends (Prepares z c) (lift (align_up c.tail)) _ c
                                λ dir_off aligned.
                                  let (same, wide) = seq_after counted in
                                  let fewer =
                                    bail_if-eq-ok (ltb max_members (length c.dir)) _ few in
                                  let smaller =
                                    bail_if-eq-ok (ltb max_dir_stored (length stored)) _ small in
                                  let encoded' : encode_directory c.dir
                                        (next_free_of (c.sb.seq + 1) c)
                                      ≡ ok payload =
                                    rw same at encoded in
                                  rw same (
                                    refl,
                                    refl,
                                    refl,
                                    λ fits.
                                        plan-IsPrepared payload stored codec dir_off
                                          (rw same at wide) (ground arith) encoded' compressed
                                          (ground arith) aligned fits,
                                  )
