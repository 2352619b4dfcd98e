-- ===== src/Wal/Replay/Rounds.antt =====
-- The rounds of the replay loop: every one but the last takes bytes off the slice.
use turndb.Shared.{
  ℕ, zero, suc, ◌+◌, ◌-◌, ◌≤◌, ◌<◌, ◌≡◌, refl, ap, ◌∙◌, [], ◌∷◌, length, take, drop, length-drop,
  Option, none, some, Bool, true, false, Error, if◌then◌else◌, Bytes, Result, ok, err, arith,
  >>=-eq-ok,
}
use turndb.Shared.Words.{from_le_bytes}
use turndb.Shared.Digests.{Digests}
use turndb.ReadLimits.{ReadLimits, admit, admit_wal_frames}
use turndb.Wal.Replay.{Scanner, accept_frame, scan_whole, scan_frame, scan}

-- Of the three answers of a round only the first one goes on.
only_accepted {ℓ} :
    {A : Type ℓ} (b c : Bool) (r : Result (Option A)) (e : Error) {x : A}
    → (if b then r else if c then ok none else err e) ≡ ok (some x)
    → r ≡ ok (some x)
only_accepted true c r e h = h
only_accepted false true r e h = cc
only_accepted false false r e h = cc

module _ (d : Digests) (limits : ReadLimits) where
  accept_frame_later :
      (tag seq plen : ℕ) (payload : Bytes) (s : Scanner) (later : Bytes) {s' : Scanner}
      {rest' : Bytes}
      → accept_frame d limits tag seq plen payload s later ≡ ok (some (s', rest'))
      → rest' ≡ later
  unfolding accept_frame
  accept_frame_later tag seq plen payload s later h = ground arith

  scan_whole_later :
      (tag seq plen : ℕ) (s : Scanner) (rest : Bytes) {s' : Scanner} {rest' : Bytes}
      → scan_whole d limits tag seq plen s rest ≡ ok (some (s', rest'))
      → rest' ≡ drop (17 + plen) rest
  unfolding scan_whole
  scan_whole_later tag seq plen s rest h =
      let (u, e, k) = >>=-eq-ok (admit_wal_frames limits _) _ h in
      let (v, f, l) = >>=-eq-ok (admit limits plen plen) _ k in
      accept_frame_later tag seq plen (take plen (drop 13 rest)) s (drop (17 + plen) rest)
        (only_accepted _ _ _ _ l)

  scan_whole-length :
      (tag seq plen : ℕ) (s : Scanner) (rest : Bytes) {s' : Scanner} {rest' : Bytes}
      → scan_whole d limits tag seq plen s rest ≡ ok (some (s', rest'))
      → length rest' ≡ length rest - (17 + plen)
  scan_whole-length tag seq plen s rest h =
      ap (λ (t : Bytes). length t) (scan_whole_later tag seq plen s rest h)
      ∙ length-drop (17 + plen) rest

  -- A round that goes on takes 17 bytes at least.
  pub scan_frame-shorter :
      (s : Scanner) (rest : Bytes) {s' : Scanner} {rest' : Bytes}
      → scan_frame d limits s rest ≡ ok (some (s', rest'))
      → length rest' + 17 ≤ length rest
  unfolding scan_frame
  scan_frame-shorter s [] h = cc
  scan_frame-shorter s (tag ∷ fields) {s'} {rest'} h =
      let seq = from_le_bytes (take 8 fields) in
      let plen = from_le_bytes (take 4 (drop 8 fields)) in
      ground (arith, scan_whole-length tag seq plen s (tag ∷ fields) {s' = s'} {rest' = rest'})

  -- More fuel than the slice has bytes changes nothing.
  scan_rounds :
      (fuel more : ℕ) (s : Scanner) (rest : Bytes)
      → length rest < fuel
      → length rest < more
      → scan d limits fuel s rest ≡ scan d limits more s rest
  unfolding scan
  scan_rounds zero more s rest h k = elim h [ ]
  scan_rounds (suc fuel) zero s rest h k = elim k [ ]
  scan_rounds (suc fuel) (suc more) s rest h k =
      go (scan_frame d limits s rest) refl (scan_rounds fuel more)
    where
      go :
          (r : Result (Option (Scanner × Bytes)))
          → scan_frame d limits s rest ≡ r
          → ((s' : Scanner) (rest' : Bytes)
              → length rest' < fuel
              → length rest' < more
              → scan d limits fuel s' rest' ≡ scan d limits more s' rest')
          → scan d limits (suc fuel) s rest ≡ scan d limits (suc more) s rest
      go (err e) q ih = rw q
      go (ok none) q ih = rw q
      go (ok (some (s', rest'))) q ih =
          let shorter = scan_frame-shorter s rest q in
          rw q (ih s' rest' (omega arith) (omega arith))

  -- The whole loop on a slice.
  unfoldable pub scan_all : Scanner → Bytes → Result Scanner
  scan_all s rest = scan d limits (suc (length rest)) s rest

  pub scan_all-step :
      (s : Scanner) (rest : Bytes) {s' : Scanner} {rest' : Bytes}
      → scan_frame d limits s rest ≡ ok (some (s', rest'))
      → scan_all s rest ≡ scan_all s' rest'
  unfolding scan_all scan
  scan_all-step s rest {s'} {rest'} h = rw h (
      scan_rounds (length rest) (suc (length rest')) s' rest'
        (omega (arith, scan_frame-shorter s rest h)) (omega arith))

  pub scan_all-end :
      (s : Scanner) (rest : Bytes) → scan_frame d limits s rest ≡ ok none → scan_all s rest ≡ ok s
  unfolding scan_all scan
  scan_all-end s rest h = rw h
