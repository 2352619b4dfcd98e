-- ===== src/Wal/Log/Batch.antt =====
-- The replay loop inside one entry: a frame that stands alone, and the run of a batch.
use native.Mathlib.Decide.{dec_lt}
use turndb.Shared.{
  ℕ, suc, ◌+◌, ◌-◌, ◌^◌, ◌<◌, ◌≡◌, refl, sym, ap, ap₂, ◌∙◌, false, ==_refl, List, [], ◌∷◌, ◌++◌,
  map, append_assoc, append-nil, length, length-append, drop, All, Option, none, some, Bytes, ok,
  arith,
}
use turndb.Shared.Digests.{Digests}
use turndb.Varint.{varint, get_varint, get-put_varint}
use turndb.Wal.Frame.{Frame}
use turndb.Wal.Replay.{
  Scanner, ReplayState, apply_frame, commit_frame, pen, complete_batch, any_other_seq, finish,
  tomb_frame, record_frame,
}
use turndb.Wal.Replay.Frames.{
  Physical, log_size, frame_size, whole, whole-cons, apply_frames, apply_frames-cons,
}
use turndb.Wal.Replay.Scan.{advance}
use turndb.Wal.Log.{Member, physical_single, physical_member, physical_members, marker, IsMember}

-- The scanner after `ms` of a batch, over the scanner before it.
abbrev pub filled : ℕ → List Member → Scanner → Scanner
filled seq ms s = record s {
  pending = map (λ (m : Member). m.frame) ms;
  pending_start = elim ms [ [] ↦ none | _ ∷ _ ↦ some (s.off, s.physical_frames) ];
  physical_frames = s.physical_frames + length ms;
  off = s.off + log_size (physical_members seq ms);
}

pub record IsClean (s : Scanner) : Type 0 where
  pub no_pending : s.pending ≡ []
  pub no_start : s.pending_start ≡ none

-- The scanner behind an entry of `size` bytes.
abbrev pub behind : List Frame → ℕ → ℕ → Scanner → Scanner
behind fs count size s = record {
  out = s.out ++ fs;
  pending = [];
  pending_start = none;
  physical_frames = s.physical_frames + count;
  off = s.off + size;
}

-- What replay answers with the scanner before an entry.
abbrev pub answer : Scanner → ReplayState
answer s = record { frames = s.out; physical_frames = s.physical_frames; valid_bytes = s.off }

abbrev pub make : List Frame → List Frame → Option (ℕ × ℕ) → ℕ → ℕ → Scanner
make out p start c o = record {
  out = out;
  pending = p;
  pending_start = start;
  physical_frames = c;
  off = o;
}

pub scanner_eq :
    (out : List Frame) {p p' : List Frame} {start start' : Option (ℕ × ℕ)} {c c' o o' : ℕ}
    → p ≡ p'
    → start ≡ start'
    → c ≡ c'
    → o ≡ o'
    → make out p start c o ≡ make out p' start' c' o'
scanner_eq out e f g h = cc

pub length-map : (ms : List Member) → length (map (λ (m : Member). m.frame) ms) ≡ length ms
length-map [] = refl
length-map (m ∷ ms) = ap suc (length-map ms)

module _ (seq : ℕ) where
  members-append :
      (ms ns : List Member)
      → physical_members seq (ms ++ ns) ≡ physical_members seq ms ++ physical_members seq ns
  members-append [] ns = refl
  members-append (m ∷ ms) ns =
      ap (λ (t : List Physical). physical_member seq m ∷ t) (members-append ms ns)

  size_snoc :
      (ms : List Member) (m : Member)
      → log_size (physical_members seq (ms ++ m ∷ []))
        ≡ log_size (physical_members seq ms) + (length m.payload + 17)
  unfolding log_size
  size_snoc [] m = omega arith
  size_snoc (n ∷ ms) m = omega (arith, size_snoc ms m)

  frames_snoc :
      (ms : List Member) (m : Member)
      → map (λ (m : Member). m.frame) ms ++ m.frame ∷ []
        ≡ map (λ (m : Member). m.frame) (ms ++ m ∷ [])
  frames_snoc [] m = refl
  frames_snoc (n ∷ ms) m = ap (λ (t : List Frame). n.frame ∷ t) (frames_snoc ms m)

  -- The next member of a batch.
  filled-pen :
      (ms : List Member) (m : Member) (s : Scanner)
      → advance (filled seq ms s) (length m.payload) (pen m.frame (filled seq ms s))
        ≡ filled seq (ms ++ m ∷ []) s
  unfolding pen log_size
  filled-pen [] m s =
      scanner_eq s.out refl (ap₂ (λ (a b : ℕ). some (a, b)) (omega arith) (omega arith))
        (omega arith) (omega arith)
  filled-pen (n ∷ ms) m s =
      scanner_eq s.out (frames_snoc (n ∷ ms) m) refl (omega (arith, length-append {0} ms (m ∷ [])))
        (omega (arith, size_snoc ms m))

module _ (d : Digests) (seq : ℕ) where
  member_seq : (m : Member) → IsMember d seq m → m.frame.seq ≡ seq
  unfolding IsMember tomb_frame record_frame
  member_seq m h = ground arith

  other_seq :
      (ms : List Member)
      → All (IsMember d seq) ms
      → any_other_seq seq (map (λ (m : Member). m.frame) ms) ≡ false
  unfolding any_other_seq
  other_seq [] h = refl
  other_seq (m ∷ ms) h = rw (member_seq m h.0, ==_refl seq, other_seq ms h.1) refl

  pub apply_single :
      (m : Member) (s : Scanner)
      → IsMember d seq m
      → apply_frame d (physical_single seq m).tag seq m.payload s ≡ ok (commit_frame m.frame s)
  unfolding IsMember apply_frame
  apply_single m s h = ground arith

  apply_member :
      (m : Member) (s : Scanner)
      → IsMember d seq m
      → apply_frame d (physical_member seq m).tag seq m.payload s ≡ ok (pen m.frame s)
  unfolding IsMember apply_frame
  apply_member m s h = ground arith

  pub run_members :
      (done todo : List Member) (s : Scanner) (more : List Physical)
      → All (IsMember d seq) todo
      → apply_frames d (filled seq done s) (physical_members seq todo ++ more)
        ≡ apply_frames d (filled seq (done ++ todo) s) more
  unfolding apply_frames
  run_members done [] s more h = rw (append-nil done) refl
  run_members done (m ∷ todo) s more h =
      rw (apply_member m (filled seq done s) h.0, filled-pen seq done m s)
        (run_members (done ++ m ∷ []) todo s more h.1
          ∙ ap (λ (t : List Member). apply_frames d (filled seq t s) more)
              (append_assoc done (m ∷ []) todo))

  -- A run that has no marker leaves the answer where the batch began.
  finish-filled : (ms : List Member) (s : Scanner) → finish (filled seq ms s) ≡ answer s
  unfolding finish log_size
  finish-filled [] s =
      ap₂ (λ (a b : ℕ). (record { frames = s.out; physical_frames = a; valid_bytes = b }))
        (omega arith) (omega arith)
  finish-filled (m ∷ ms) s = refl

  pub cut_members :
      (done todo : List Member) (n k : ℕ) (s : Scanner)
      → All (IsMember d seq) todo
      → n < log_size (physical_members seq todo ++ marker seq k ∷ [])
      → (s' : Scanner) × (apply_frames d
            (filled seq done s)
            (whole n (physical_members seq todo ++ marker seq k ∷ []))
          ≡ ok s')
        × (finish s' ≡ answer s)
  unfolding apply_frames whole log_size
  cut_members done [] n k s h cut = (filled seq done s, ground arith, finish-filled done s)
  cut_members done (m ∷ todo) n k s h cut = elim (dec_lt n (frame_size (physical_member seq m))) [
    | yes c ↦ (filled seq done s, ground arith, finish-filled done s)
    | no c ↦ onward c (
        cut_members (done ++ m ∷ []) todo (n - frame_size (physical_member seq m)) k s h.1
          (omega arith))
  ]
    where
      tail : List Physical
      tail = physical_members seq todo ++ marker seq k ∷ []

      left : List Physical
      left = whole (n - frame_size (physical_member seq m)) tail

      stepped :
          {s' : Scanner}
          → ¬ (n < frame_size (physical_member seq m))
          → apply_frames d
              (filled seq (done ++ m ∷ []) s)
              (whole (n - frame_size (physical_member seq m)) tail)
            ≡ ok s'
          → apply_frames d (filled seq done s) (whole n (physical_member seq m ∷ tail)) ≡ ok s'
      stepped c e = rw (whole-cons n (physical_member seq m) tail c) (
          apply_frames-cons d (physical_member seq m) left (filled seq done s)
            (apply_member m (filled seq done s) h.0)
          ∙ ap (λ (t : Scanner). apply_frames d t left) (filled-pen seq done m s)
          ∙ e)

      onward :
          ¬ (n < frame_size (physical_member seq m))
          → (s' : Scanner) × (apply_frames d
                (filled seq (done ++ m ∷ []) s)
                (whole (n - frame_size (physical_member seq m)) tail)
              ≡ ok s')
            × (finish s' ≡ answer s)
          → (s' : Scanner) × (apply_frames d
                (filled seq done s)
                (whole n (physical_member seq m ∷ tail))
              ≡ ok s')
            × (finish s' ≡ answer s)
      onward c (s', e, f) = (s', stepped c e, f)

  pub complete :
      (ms : List Member) (s : Scanner)
      → 0 < length ms
      → length ms < 2 ^ 64
      → All (IsMember d seq) ms
      → complete_batch seq (varint (length ms)) (filled seq ms s)
        ≡ ok (record (filled seq ms s) {
          out = s.out ++ map (λ (m : Member). m.frame) ms;
          pending = [];
          pending_start = none;
        })
  unfolding complete_batch
  complete ms s some_member fits h =
      rw
        (
          ap (λ (t : Bytes). get_varint t) (sym (append-nil (varint (length ms))))
              ∙ get-put_varint (length ms) [] fits,
          length-map ms,
          whole_run,
          other_seq ms h,
        )
        (ground arith)
    where
      whole_run :
          drop (length ms - length ms) (map (λ (m : Member). m.frame) ms)
          ≡ map (λ (m : Member). m.frame) ms
      whole_run = ap (λ (n : ℕ). drop n (map (λ (m : Member). m.frame) ms)) {y = 0} (omega arith)
