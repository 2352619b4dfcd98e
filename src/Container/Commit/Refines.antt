-- ===== src/Container/Commit/Refines.antt =====
-- `commit` as one step from a state to its successor.
use turndb.Shared.{
  ℕ, ◌+◌, ◌-◌, ◌*◌, ◌^◌, ◌<◌, ◌≡◌, refl, sym, subst, ◌∙◌, Bool, true, false, ◌&&◌, if◌then◌else◌,
  length, none, Result, ok, err, OnOk-ok, arith, length_overflow, io_failure,
}
use turndb.Shared.Digests.{Digests}
use turndb.Shared.Exec.{pure, lift, ◌>>=◌, ◌>>◌, Ends, >>=-Ends}
use turndb.Block.Codec.{Zstd}
use turndb.Container.Superblock.{Superblock, slot_len, encode}
use turndb.Container.Disk.{Disk}
use turndb.Container.Directory.Decode.{Directory}
use turndb.Container.State.{Container, selected_state, checked_add, ensure_writable}
use turndb.Container.Staging.{check, modify, write_out}
use turndb.Container.Commit.{
  Prepared, next_free_of, try_u32, prepare, sync, flip, publish_prepared, commit_staged, commit,
  published, after_flip, publish, after_commit, when_staged,
}
use turndb.Container.Commit.Published.{superblock_of, IsPrepared, published-selected}
use turndb.Container.Commit.Prepare.{IsCommittable, Prepares, prepare-Prepares}

and-left : (a b : Bool) → (a && b) ≡ true → a ≡ true
and-left true b e = refl
and-left false b e = e

written-inv :
    (done : Bool) {u : Unit {0}} → (if done then ok tt else err io_failure) ≡ ok u → done ≡ true
written-inv true e = refl
written-inv false e = cc

module _ (disk : Disk) (d : Digests) (z : Zstd) where
  after_flip-inv :
      (whole : Bool) (sb : Superblock) (slot : ℕ) (c : Container) {seq : ℕ}
      → (after_flip disk d z whole sb slot c).0 ≡ ok seq
      → (whole ≡ true)
        × (sb.seq ≡ seq)
        × ((after_flip disk d z whole sb slot c).1 ≡ published disk d z sb slot c)
  after_flip-inv true sb slot c e = (refl, cc, refl)
  after_flip-inv false sb slot c e = cc

  -- What a successful commit over `c` leaves behind.
  abbrev Commits : Container → ℕ → Container → Type 0
  Commits c seq s =
      (seq ≡ c.sb.seq + 1)
      × (s.sb.seq ≡ seq)
      × (s.dir ≡ c.dir)
      × (s.free ≡ next_free_of (c.sb.seq + 1) c)
      × (selected_state d z s.file c.read_limits ≡ ok (s.sb, s.slot, (s.dir, s.free)))

  module _ (c : Container) (p : Prepared) where
    abbrev first : Container
    first = record c { file = (disk.write_all_at c.file p.stored p.dir_off).1 }

    flip-Commits :
        {committed : Directory}
        → selected_state d z c.file c.read_limits ≡ ok (c.sb, c.slot, committed)
        → p.seq ≡ c.sb.seq + 1
        → p.next_free ≡ next_free_of (c.sb.seq + 1) c
        → IsPrepared z c.read_limits c.dir p
        → (disk.write_all_at c.file p.stored p.dir_off).0 ≡ true
        → Ends (Commits c) (
            (flip disk d z (superblock_of d p (length c.dir)) >>= λ sequence.
            modify (λ c. record c { free = p.next_free }) >> pure sequence)
              first)
    unfolding flip
    flip-Commits selected counted freed ready done =
        let sb = superblock_of d p (length c.dir) in
        let at : ℕ = (1 - c.slot) * slot_len in
        let (whole, file) = disk.write_all_at first.file (encode d sb) at in
        let second : Container = record first { file = file; failed_publication_selected = none } in
        >>=-Ends (Commits c) (flip disk d z sb)
          (λ sequence. modify (λ c. record c { free = p.next_free }) >> pure sequence) first
          λ sequence flipped.
            let (synced, same, state) =
              after_flip-inv (whole && disk.sync_file file) sb (1 - c.slot) second flipped in
            subst (λ s. Commits c sequence (record s { free = p.next_free })) (sym state)
              (
                sym same ∙ counted,
                same,
                refl,
                freed,
                published-selected d z c.read_limits c.dir p disk c.file selected
                    (omega (arith, counted)) ready done
                    (and-left whole (disk.sync_file file) synced),
              )

    publish_prepared-Commits :
        {committed : Directory}
        → selected_state d z c.file c.read_limits ≡ ok (c.sb, c.slot, committed)
        → p.seq ≡ c.sb.seq + 1
        → p.next_free ≡ next_free_of (c.sb.seq + 1) c
        → (p.dir_off + length p.stored < 2 ^ 64 → IsPrepared z c.read_limits c.dir p)
        → Ends (Commits c) (publish_prepared disk d z p c)
    unfolding publish_prepared write_out sync
    publish_prepared-Commits selected counted freed prepared =
        >>=-Ends (Commits c) (write_out disk p.stored p.dir_off) _ c λ _ wrote.
          >>=-Ends (Commits c) (lift (checked_add p.dir_off (length p.stored) length_overflow)) _
            first
            λ tail sum.
              >>=-Ends (Commits c) (lift (try_u32 (length p.stored))) _ first λ dir_stored stored.
                >>=-Ends (Commits c) (lift (try_u32 (length p.payload))) _ first λ dir_raw raw.
                  >>=-Ends (Commits c) (check (λ c. try_u32 (length c.dir))) _ first
                    λ n_entries entries. >>=-Ends (Commits c) (sync disk) _ first λ _ _.
                      let end : tail ≡ p.dir_off + length p.stored = ground arith in
                      let short : dir_stored ≡ length p.stored = ground arith in
                      let long : dir_raw ≡ length p.payload = ground arith in
                      let count : n_entries ≡ length c.dir = ground arith in
                      let fits : p.dir_off + length p.stored < 2 ^ 64 = ground arith in
                      rw (end, short, long, count)
                        (flip-Commits selected counted freed (prepared fits) (written-inv _ wrote))

  commit_staged-Commits :
      (c : Container) → IsCommittable d z c → Ends (Commits c) (commit_staged disk d z c)
  unfolding commit_staged
  commit_staged-Commits c h = >>=-Ends (Commits c) (prepare z) _ c λ p prepared.
      let (same, counted, freed, ready) =
        OnOk-ok (λ p. Prepares z c p (prepare z c).1) _ (prepare-Prepares d z c h) prepared in
      subst (λ s. Ends (Commits c) (publish_prepared disk d z p s)) (sym same)
        (publish_prepared-Commits c p h.selected counted freed ready)

  publish-Commits : (c : Container) → IsCommittable d z c → Ends (Commits c) (publish disk d z c)
  publish-Commits c h =
      let c' : Container = record c { failed_publication_selected = none } in
      let ready : IsCommittable d z c' = record {
        committed = h.committed;
        selected = h.selected;
        behind = h.behind;
        directory = h.directory;
        summed = h.summed;
        typed = h.typed;
        members = h.members;
        free = h.free;
        stored = h.stored;
        raw = h.raw;
      } in
      unwound c (commit_staged disk d z c') (commit_staged-Commits c' ready)
    where
      unwound :
          (c : Container) (end : Result ℕ × Container)
          → Ends (Commits c) end
          → Ends (Commits c) (end.0, after_commit disk d z end.0 end.1)
      unwound c (ok seq, s) k = k
      unwound c (err e, s) k = tt

  commit-Ends :
      (c : Container) → IsCommittable d z c → c.staged ≡ true → Ends (Commits c) (commit disk d z c)
  unfolding commit
  commit-Ends c h staged = >>=-Ends (Commits c) (check ensure_writable) _ c λ _ _.
      subst (λ b. Ends (Commits c) (when_staged disk d z b c)) (sym staged) (publish-Commits c h)

-- Over a handle with something staged, a commit that succeeds makes the file select the next
-- sequence number, and exactly the directory that was staged; its free extents are those of before
-- and the directory that it replaces, and the handle then has what the file has. The file's selected
-- state is the handle's, the staged directory is well-formed behind it and fits its types, and the
-- handle's limits admit it.
pub commit-Commits :
    (disk : Disk) (d : Digests) (z : Zstd) (c : Container) {seq : ℕ} {s : Container}
    → IsCommittable d z c
    → c.staged ≡ true
    → commit disk d z c ≡ (ok seq, s)
    → (seq ≡ c.sb.seq + 1)
      × (s.sb.seq ≡ seq)
      × (s.dir ≡ c.dir)
      × (s.free ≡ next_free_of (c.sb.seq + 1) c)
      × (selected_state d z s.file c.read_limits ≡ ok (s.sb, s.slot, (s.dir, s.free)))
commit-Commits disk d z c {seq} {s} h staged e =
    subst (λ end. Ends (Commits disk d z c) end) e (commit-Ends disk d z c h staged)
