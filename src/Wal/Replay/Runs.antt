-- ===== src/Wal/Replay/Runs.antt =====
-- The replay loop without its fuel: the rounds that it makes, and that it ends.
use turndb.Shared.{
  ℕ, zero, suc, ◌*◌, ◌≤◌, ◌<◌, ◌≡◌, refl, length, Option, none, some, Error, Bytes, Result, ok, err,
  ◌>>=◌, arith,
}
use turndb.Shared.Digests.{Digests}
use turndb.ReadLimits.{ReadLimits, validate}
use turndb.Wal.Replay.{Scanner, scan_frame, scan, start, finish, replay_file}
use turndb.Wal.Replay.Rounds.{scan_frame-shorter}

module _ (d : Digests) (limits : ReadLimits) where
  -- `Runs n s rest r`: from the variables `s` and the bytes `rest` the loop goes on after n rounds,
  -- and the next round ends it with r, at a `break` or at an error of its own. A loop that never
  -- ends has no run.
  pub data Runs : ℕ → Scanner → Bytes → Result Scanner → Type 0 where
    stop :
        (s : Scanner) (rest : Bytes)
        → scan_frame d limits s rest ≡ ok none
        → Runs zero s rest (ok s)
    fail :
        (s : Scanner) (rest : Bytes) (e : Error)
        → scan_frame d limits s rest ≡ err e
        → Runs zero s rest (err e)
    next :
        {n : ℕ} (s : Scanner) (rest : Bytes) (s' : Scanner) (rest' : Bytes) {r : Result Scanner}
        → scan_frame d limits s rest ≡ ok (some (s', rest'))
        → Runs n s' rest' r
        → Runs (suc n) s rest r

  abbrev Ended : ℕ → Scanner → Bytes → Type 0
  Ended fuel s rest = (n : ℕ) × Runs n s rest (scan d limits fuel s rest) × (17 * n ≤ length rest)

  scan-Ended : (fuel : ℕ) (s : Scanner) (rest : Bytes) → length rest < fuel → Ended fuel s rest
  unfolding scan
  scan-Ended zero s rest h = absurd (omega arith)
  scan-Ended (suc fuel) s rest h = go (scan_frame d limits s rest) refl (scan-Ended fuel)
    where
      go :
          (r : Result (Option (Scanner × Bytes)))
          → scan_frame d limits s rest ≡ r
          → ((s' : Scanner) (rest' : Bytes) → length rest' < fuel → Ended fuel s' rest')
          → Ended (suc fuel) s rest
      go (err e) q ih = rw q (zero, fail s rest e q, omega arith)
      go (ok none) q ih = rw q (zero, stop s rest q, omega arith)
      go (ok (some (s', rest'))) q ih =
          let shorter = scan_frame-shorter d limits s rest q in
          let (n, run, few) = ih s' rest' (omega arith) in
          rw q (suc n, next s rest s' rest' q run, omega arith)

  -- Replay ends on every file, and never for want of fuel: from the start of the file the loop goes
  -- on for at most a 17th as many rounds as the file has bytes, and ends at a `break` or at an error
  -- of a round; replay gives that error, or finishes with the variables of the `break`, when the
  -- limits are valid, and the error of the limits otherwise.
  pub replay_file-Runs :
      (file : Bytes)
      → (n : ℕ) × (r : Result Scanner) × Runs n start file r
        × (17 * n ≤ length file)
        × (replay_file d limits file
            ≡ (validate limits >>= λ (_ : ReadLimits). r >>= λ s. ok (finish s)))
  unfolding replay_file
  replay_file-Runs file =
      let (n, run, few) = scan-Ended (suc (length file)) start file (omega arith) in
      (n, scan d limits (suc (length file)) start file, run, few, refl)
