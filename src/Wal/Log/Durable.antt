-- ===== src/Wal/Log/Durable.antt =====
-- `sync` against replay: what was acknowledged is read back.
use turndb.Shared.{
  ℕ, ◌-◌, ◌^◌, ◌≤◌, ◌<◌, ◌≡◌, refl, sym, ap, ◌∙◌, Bool, true, false, if◌then◌else◌, List, [], ◌∷◌,
  ◌++◌, append-nil, length, take, take-length-append, All, Bool-cases, inl, inr, Bytes, Error,
  Result, ok, err, arith,
}
use turndb.Shared.Digests.{Digests}
use turndb.ReadLimits.{ReadLimits, IsValid}
use turndb.Shared.Exec.{continue-inv}
use turndb.Wal.Writer.{Platform, Wal, is_nil, after_write, flush_buf, sync}
use turndb.Wal.Replay.{ReplayState, replay_file}
use turndb.Wal.Replay.Frames.{IsFit, log_size, log_size-append, length-log_bytes}
use turndb.Wal.Log.{
  Entry, physical_of, physical_log, logical_frames, committed, IsEntry, entries_bytes,
}
use turndb.Wal.Log.Crash.{replay_file-take}
use turndb.Wal.Log.Append.{
  contents, IsBacked, flush_buf-contents, outcome, only_done, same_state, error_is_not_ok,
}

-- In all of the log every entry is whole.
committed_all : (es : List Entry) (n : ℕ) → log_size (physical_log es) ≤ n → committed n es ≡ es
unfolding committed
committed_all [] n h = refl
committed_all (e ∷ es) n h =
    let size = log_size-append (physical_of e) (physical_log es) in
    ground (arith, size, committed_all es (n - log_size (physical_of e)) (omega (arith, size)))

is_nil→nil : (b : Bytes) → is_nil b ≡ true → b ≡ []
is_nil→nil [] h = refl
is_nil→nil (x ∷ xs) h = cc

only_synced :
    (b : Bool) (e : Error) (x : Wal) {y z : Wal}
    → (if b then outcome (ok tt) y else outcome (err e) x) ≡ (ok tt, z)
    → y ≡ z
only_synced true e x h = same_state h
only_synced false e x h = absurd (error_is_not_ok (ap (λ (t : Result (Unit {0}) × Wal). t.0) h))

-- What replay answers to a whole log.
abbrev answer_of : List Entry → Result ReplayState
answer_of es = ok (record {
  frames = logical_frames es;
  physical_frames = length (physical_log es);
  valid_bytes = log_size (physical_log es);
})

module _ (fs : Platform) where
  -- A flush leaves nothing in the buffer.
  flush_buf-empties : (w : Wal) {w' : Wal} → flush_buf fs w ≡ (ok tt, w') → w'.buf ≡ []
  unfolding flush_buf after_write
  flush_buf-empties w h = elim (Bool-cases (is_nil w.buf)) [
    | inl p ↦ rw (← same_state (rw p at h)) (is_nil→nil w.buf p)
    | inr p ↦
        written (fs.write_all_at w.file w.buf w.file_len).0
          (fs.write_all_at w.file w.buf w.file_len).1 (rw p at h)
  ]
    where
      written :
          (done : Bool) (file : Bytes) {w' : Wal}
          → after_write fs done file w ≡ (ok tt, w')
          → w'.buf ≡ []
      written false file k = cc
      written true file k = rw (← only_done _ _ _ k) refl

  -- A successful `sync` leaves the log in the file.
  sync-contents :
      (w : Wal) {w' : Wal}
      → IsBacked w
      → sync fs w ≡ (ok tt, w')
      → take w'.file_len w'.file ≡ contents w
  unfolding sync
  sync-contents w backed h =
      let flushed = flush_buf fs w in
      let (u, e, k) = continue-inv flushed.0 _ flushed.1 h in
      let whole : flush_buf fs w ≡ (ok tt, flushed.1) =
        ap (λ (r : Result (Unit {0})). (r, flushed.1)) e in
      rw (← only_synced (fs.sync_file flushed.1.file) _ _ k) (
        sym (append-nil (take flushed.1.file_len flushed.1.file))
        ∙ ap (λ (b : Bytes). take flushed.1.file_len flushed.1.file ++ b)
            (sym (flush_buf-empties w whole))
        ∙ (flush_buf-contents fs w backed whole).0)

  module _ (d : Digests) (limits : ReadLimits) where
    -- Once `sync` has reported success, the file up to the writer's length replays to every entry
    -- of the log, buffered ones included. The log is one of well-formed entries, of less than 2^64
    -- bytes, the limits are valid and admit every frame and their number, and the file holds what
    -- the writer counts of it.
    pub sync-replay :
        (es : List Entry) (w : Wal) {w' : Wal}
        → IsValid limits
        → All (IsEntry d) es
        → All (IsFit limits) (physical_log es)
        → length (physical_log es) ≤ limits.max_wal_frames
        → log_size (physical_log es) < 2 ^ 64
        → IsBacked w
        → contents w ≡ entries_bytes d es
        → sync fs w ≡ (ok tt, w')
        → replay_file d limits (take w'.file_len w'.file)
          ≡ ok (record {
            frames = logical_frames es;
            physical_frames = length (physical_log es);
            valid_bytes = log_size (physical_log es);
          })
    sync-replay es w v sound fit count fits backed log h =
        rw (sync-contents w backed h ∙ log ∙ sym all_bytes) (
          replay_file-take d limits es size v sound fit count fits
          ∙ ap (λ (fs : List Entry). answer_of fs)
              (committed_all es size (omega (arith, length-log_bytes d (physical_log es)))))
      where
        size : ℕ
        size = length (entries_bytes d es)

        all_bytes : take size (entries_bytes d es) ≡ entries_bytes d es
        all_bytes =
            ap (λ (b : Bytes). take size b) (sym (append-nil (entries_bytes d es)))
            ∙ take-length-append (entries_bytes d es) []
