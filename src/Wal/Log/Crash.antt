-- ===== src/Wal/Log/Crash.antt =====
-- Replay of a log that a crash cut off at any byte.
use native.Mathlib.Decide.{dec_lt}
use turndb.Shared.{
  ℕ, suc, ◌+◌, ◌-◌, ◌^◌, ◌≤◌, ◌<◌, ◌≡◌, refl, sym, ap, ◌∙◌, List, [], ◌∷◌, ◌++◌, append_assoc,
  append-nil, length, length-append, take, All, Bytes, ok, arith,
}
use turndb.Shared.Digests.{Digests}
use turndb.ReadLimits.{ReadLimits, IsValid, validate-ok}
use turndb.Varint.{varint}
use turndb.Wal.Frame.{Frame, batch_complete_tag}
use turndb.Wal.Replay.{
  Scanner, ReplayState, apply_frame, complete_batch, commit_frame, start, finish, replay_file,
}
use turndb.Wal.Replay.Rounds.{scan_all}
use turndb.Wal.Replay.Frames.{
  IsFit, log_size, log_size-append, whole, whole-append_ge, whole-append_lt, apply_frames,
  apply_frames-append, scan_all-take,
}
use turndb.Wal.Log.{
  Member, Entry, single, batch, frames_of, physical_members, marker, physical_of, physical_log,
  logical_frames, committed, IsMember, IsEntry, entries_bytes,
}
use turndb.Wal.Log.Batch.{
  IsClean, filled, behind, answer, scanner_eq, apply_single, run_members, complete, cut_members,
}

abbrev state : List Frame → ℕ → ℕ → ReplayState
state fs c o = record { frames = fs; physical_frames = c; valid_bytes = o }

-- The answer of replay with the entries `es` behind a scanner.
abbrev extended : Scanner → List Entry → ReplayState
extended s es = record {
  frames = s.out ++ logical_frames es;
  physical_frames = s.physical_frames + length (physical_log es);
  valid_bytes = s.off + log_size (physical_log es);
}

behind_entry : Entry → Scanner → Scanner
behind_entry e s = behind (frames_of e) (length (physical_of e)) (log_size (physical_of e)) s

filled-nil : (seq : ℕ) (s : Scanner) → IsClean s → filled seq [] s ≡ s
unfolding log_size
filled-nil seq s c =
    scanner_eq s.out (sym c.no_pending) (sym c.no_start) (omega arith) (omega arith)

apply_marker :
    (d : Digests) (seq : ℕ) (payload : Bytes) (s : Scanner)
    → apply_frame d batch_complete_tag seq payload s ≡ complete_batch seq payload s
unfolding apply_frame
apply_marker d seq payload s = refl

length-physical_members :
    (seq : ℕ) (ms : List Member) → length (physical_members seq ms) ≡ length ms
length-physical_members seq [] = refl
length-physical_members seq (m ∷ ms) = ap suc (length-physical_members seq ms)

behind_entry-IsClean : (e : Entry) (s : Scanner) → IsClean (behind_entry e s)
unfolding behind_entry
behind_entry-IsClean e s = record { no_pending = refl; no_start = refl }

finish-IsClean : (s : Scanner) → IsClean s → finish s ≡ answer s
unfolding finish
finish-IsClean s c = rw c.no_start refl

state_eq :
    {fs gs : List Frame} {c c' o o' : ℕ} → fs ≡ gs → c ≡ c' → o ≡ o' → state fs c o ≡ state gs c' o'
state_eq e f g = cc

extended-nil : (s : Scanner) → answer s ≡ extended s []
unfolding log_size
extended-nil s = state_eq (sym (append-nil s.out)) (omega arith) (omega arith)

extended-behind :
    (e : Entry) (s : Scanner) (es : List Entry)
    → extended (behind_entry e s) es ≡ extended s (e ∷ es)
unfolding behind_entry
extended-behind e s es =
    state_eq (append_assoc s.out (frames_of e) (logical_frames es))
      (omega (arith, length-append {0} (physical_of e) (physical_log es)))
      (omega (arith, log_size-append (physical_of e) (physical_log es)))

committed_cut :
    (n : ℕ) (e : Entry) (es : List Entry) → n < log_size (physical_of e) → committed n (e ∷ es) ≡ []
unfolding committed
committed_cut n e es h = ground arith

committed_whole :
    (n : ℕ) (e : Entry) (es : List Entry)
    → ¬ (n < log_size (physical_of e))
    → committed n (e ∷ es) ≡ e ∷ committed (n - log_size (physical_of e)) es
unfolding committed
committed_whole n e es h = ground arith

module _ (d : Digests) where
  run_single :
      (seq : ℕ) (m : Member) (s : Scanner)
      → IsMember d seq m
      → IsClean s
      → apply_frames d s (physical_of (single seq m)) ≡ ok (behind_entry (single seq m) s)
  unfolding behind_entry apply_frames commit_frame log_size
  run_single seq m s h c =
      rw (apply_single d seq m s h)
        (ap ok (scanner_eq (s.out ++ m.frame ∷ []) refl refl (omega arith) (omega arith)))

  run_batch :
      (seq : ℕ) (ms : List Member) (s : Scanner)
      → IsEntry d (batch seq ms)
      → IsClean s
      → apply_frames d s (physical_of (batch seq ms)) ≡ ok (behind_entry (batch seq ms) s)
  unfolding IsEntry behind_entry apply_frames log_size
  run_batch seq ms s h c =
      ap (λ (t : Scanner). apply_frames d t (physical_of (batch seq ms))) (sym (filled-nil seq s c))
      ∙ run_members d seq [] ms s (marker seq (length ms) ∷ []) h.2
      ∙ rw
          (
            apply_marker d seq (varint (length ms)) (filled seq ms s),
            complete d seq ms s h.0 h.1 h.2,
          )
          (ap ok (
            scanner_eq (s.out ++ frames_of (batch seq ms)) refl refl
              (omega (
                arith,
                length-append {0} (physical_members seq ms) (marker seq (length ms) ∷ []),
                length-physical_members seq ms,
              ))
              (omega
                (arith, log_size-append (physical_members seq ms) (marker seq (length ms) ∷ [])))))

  run_entry :
      (e : Entry) (s : Scanner)
      → IsEntry d e
      → IsClean s
      → apply_frames d s (physical_of e) ≡ ok (behind_entry e s)
  unfolding IsEntry
  run_entry (single seq m) s h c = run_single seq m s h c
  run_entry (batch seq ms) s h c = run_batch seq ms s h c

  -- An entry that is cut off leaves the answer as it was before it.
  cut_entry :
      (e : Entry) (n : ℕ) (s : Scanner)
      → IsEntry d e
      → IsClean s
      → n < log_size (physical_of e)
      → (s' : Scanner) × (apply_frames d s (whole n (physical_of e)) ≡ ok s')
        × (finish s' ≡ answer s)
  unfolding IsEntry finish whole log_size apply_frames
  cut_entry (single seq m) n s h c cut = (s, ground arith, ground arith)
  cut_entry (batch seq ms) n s h c cut =
      let (s', e, f) = cut_members d seq [] ms n (length ms) s h.2 cut in
      (
        s',
        ap (λ (t : Scanner). apply_frames d t (whole n (physical_of (batch seq ms))))
              (sym (filled-nil seq s c))
            ∙ e,
        f,
      )

  run_log :
      (es : List Entry) (n : ℕ) (s : Scanner)
      → All (IsEntry d) es
      → IsClean s
      → (s' : Scanner) × (apply_frames d s (whole n (physical_log es)) ≡ ok s')
        × (finish s' ≡ extended s (committed n es))
  unfolding committed
  run_log [] n s h c = (s, unfold apply_frames whole in refl, finish-IsClean s c ∙ extended-nil s)
  run_log (e ∷ es) n s h c = elim (dec_lt n (log_size (physical_of e))) [
    | yes p ↦ cut p (cut_entry e n s h.0 c p)
    | no p ↦ onward p (
        run_log es (n - log_size (physical_of e)) (behind_entry e s) h.1 (behind_entry-IsClean e s))
  ]
    where
      Answered : Type 0
      Answered =
          (s' : Scanner) × (apply_frames d s (whole n (physical_of e ++ physical_log es)) ≡ ok s')
          × (finish s' ≡ extended s (committed n (e ∷ es)))

      cut :
          n < log_size (physical_of e)
          → (s' : Scanner) × (apply_frames d s (whole n (physical_of e)) ≡ ok s')
            × (finish s' ≡ answer s)
          → Answered
      cut p (s', f, g) = (
        s',
        rw (whole-append_lt n (physical_of e) (physical_log es) p) f,
        rw (committed_cut n e es p) (g ∙ extended-nil s),
      )

      onward :
          ¬ (n < log_size (physical_of e))
          → (s' : Scanner) × (apply_frames d
                (behind_entry e s)
                (whole (n - log_size (physical_of e)) (physical_log es))
              ≡ ok s')
            × (finish s'
                ≡ extended (behind_entry e s) (committed (n - log_size (physical_of e)) es))
          → Answered
      onward p (s', f, g) = (
        s',
        rw (whole-append_ge n (physical_of e) (physical_log es) (omega arith)) (
            apply_frames-append d (physical_of e)
              (whole (n - log_size (physical_of e)) (physical_log es)) s (run_entry e s h.0 c)
            ∙ f),
        rw (committed_whole n e es p)
            (g ∙ extended-behind e s (committed (n - log_size (physical_of e)) es)),
      )

module _ (d : Digests) (limits : ReadLimits) where
  -- The first `n` bytes of a log, for every `n`, replay to exactly the entries that are whole in
  -- them: no torn frame and no member of a batch without its marker is seen, and the valid bytes
  -- end where the last whole entry does. The entries are well-formed, and the limits are valid
  -- and admit every frame and their number, in a log of less than 2^64 bytes.
  pub replay_file-take :
      (es : List Entry) (n : ℕ)
      → IsValid limits
      → All (IsEntry d) es
      → All (IsFit limits) (physical_log es)
      → length (physical_log es) ≤ limits.max_wal_frames
      → log_size (physical_log es) < 2 ^ 64
      → replay_file d limits (take n (entries_bytes d es))
        ≡ ok (record {
          frames = logical_frames (committed n es);
          physical_frames = length (physical_log (committed n es));
          valid_bytes = log_size (physical_log (committed n es));
        })
  unfolding replay_file scan_all
  replay_file-take es n v h fit count fits =
      let (s', e, f) = run_log d es n start h (record { no_pending = refl; no_start = refl }) in
      let scanned : scan_all d limits start (take n (entries_bytes d es)) ≡ ok s' =
        scan_all-take d limits (omega (arith, v.frames.1)) (physical_log es) n start fit
          (omega arith) (omega arith) e in
      rw (validate-ok limits v, scanned) (ap ok (f ∙ state_eq refl (omega arith) (omega arith)))
