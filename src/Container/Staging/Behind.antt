-- ===== src/Container/Staging/Behind.antt =====
-- Staging writes behind the committed state only.
use turndb.Shared.{
  ℕ, zero, suc, ◌+◌, ◌-◌, ◌≤◌, ◌≡◌, ◌∙◌, Bool, true, false, not, ◌==◌, ltb, if◌then◌else◌, min,
  ◌++◌, length, take, Bytes, Result, ok, err, OnOk, >>=-OnOk, bail_if-OnOk, OnOk-ok, OnOk-of, arith,
  tokens_exhausted, member_length_overflow, extent_overflow, out_of_fuel, leb, ◌&&◌,
  length_overflow,
}
use turndb.Shared.Maps.{find}
use turndb.Shared.Exec.{Exec, lift, ◌>>=◌, Keeps, lift-Keeps, pure-Keeps, >>=-Keeps, if-Keeps}
use turndb.Container.Align.{align_up-next}
use turndb.Container.Disk.{Disk}
use turndb.Container.Directory.Encode.{max_member_extents}
use turndb.Container.State.{Container, ensure_writable, checked_add, next_seq}
use turndb.Container.Names.{validate_name}
use turndb.Container.Preflight.{
  aligned_start, preflight_member, preflight_replacement, Append, preflight_append, preflight_begin,
  check_free_count, ends_at, last, last_len, member_or_error,
}
use turndb.Container.Staging.{check, modify, Fill, window_len, write_out, write_stream}

-- `c` has grown behind the committed state of `s`: it has the superblock, the slot, the limits and
-- the committed bytes of `s`, and its staging cursor is not in front of their end.
pub record Grown (s c : Container) : Type 0 where
  pub sb : c.sb ≡ s.sb
  pub slot : c.slot ≡ s.slot
  pub limits : c.read_limits ≡ s.read_limits
  pub tail : s.sb.tail ≤ c.tail
  pub front : take s.sb.tail c.file ≡ take s.sb.tail s.file
  pub long : s.sb.tail ≤ length c.file

module _ (s : Container) where
  abbrev pub Behind : ℕ → Type 0
  Behind off = s.sb.tail ≤ off

  abbrev pub Any : {A : Type 0} → A → Type 0
  Any a = Unit {0}

  pub check-Keeps :
      {A : Type 0} (P : A → Type 0) (f : Container → Result A)
      → ((c : Container) → Grown s c → OnOk P (f c))
      → Keeps (Grown s) P (check f)
  check-Keeps P f h c g = (g, h c g)

  pub check-Any : {A : Type 0} (f : Container → Result A) → Keeps (Grown s) Any (check f)
  check-Any f c g = (g, OnOk-of Any (f c) (λ _ _. tt))

  pub lift-Any : {A : Type 0} (r : Result A) → Keeps (Grown s) Any (lift r)
  lift-Any r = check-Any (λ _. r)

  pub write_out-Keeps :
      (disk : Disk) (bytes : Bytes) (off : ℕ)
      → Behind off
      → Keeps (Grown s) Any (write_out disk bytes off)
  unfolding write_out
  write_out-Keeps disk bytes off h c g = (
    record {
      sb = g.sb;
      slot = g.slot;
      limits = g.limits;
      tail = g.tail;
      front = disk.write_keeps c.file bytes off s.sb.tail h g.long ∙ g.front;
      long = omega (arith, g.long, disk.write_grows c.file bytes off);
    },
    OnOk-of Any _ (λ _ _. tt),
  )

  -- One step of a method, of which nothing but the state matters.
  pub then-Keeps :
      {A B : Type 0} (Q : B → Type 0) (m : Exec Container A) (f : A → Exec Container B)
      → Keeps (Grown s) Any m
      → ((a : A) → Keeps (Grown s) Q (f a))
      → Keeps (Grown s) Q (m >>= f)
  then-Keeps Q m f h k = >>=-Keeps (Grown s) Any Q m f h (λ a _. k a)

  aligned_start-Behind : (c : Container) → Grown s c → OnOk Behind (aligned_start c)
  unfolding aligned_start
  aligned_start-Behind c g =
      OnOk-of Behind _
        λ off e. let (le, _, _) = align_up-next c.tail off e in omega (arith, le, g.tail)

  pub checked_add-Behind :
      (off len : ℕ) → Behind off → OnOk Behind (checked_add off len length_overflow)
  checked_add-Behind off len h = OnOk-of Behind _ λ sum e. ground arith

  pub preflight_member-Behind :
      (name : Bytes) (len : ℕ) (c : Container)
      → Grown s c
      → OnOk Behind (preflight_member name len c)
  unfolding preflight_member
  preflight_member-Behind name len c g = >>=-OnOk _ (ensure_writable c) _ λ _ _.
      >>=-OnOk _ (validate_name name) _ λ _ _. >>=-OnOk _ (aligned_start c) _ λ off start.
        >>=-OnOk _ (checked_add off len length_overflow) _ λ _ _. >>=-OnOk _ (next_seq c) _ λ _ _.
          >>=-OnOk _ (preflight_replacement name (if len == 0 then 0 else 1) c) _
            λ _ _. OnOk-ok Behind _ (aligned_start-Behind c g) start

  abbrev pub BehindBegin : ℕ × ℕ → Type 0
  BehindBegin (off, token) = Behind off

  pub preflight_begin-Behind :
      (name : Bytes) (c : Container) → Grown s c → OnOk BehindBegin (preflight_begin name c)
  unfolding preflight_begin
  preflight_begin-Behind name c g = >>=-OnOk _ (ensure_writable c) _ λ _ _.
      >>=-OnOk _ (validate_name name) _ λ _ _. >>=-OnOk _ (preflight_replacement name 1 c) _ λ _ _.
        >>=-OnOk _ (aligned_start c) _ λ off start. >>=-OnOk _ (next_seq c) _ λ _ _.
          >>=-OnOk _ (checked_add c.next_member_token 1 tokens_exhausted) _
            λ _ _. OnOk-ok Behind _ (aligned_start-Behind c g) start

  abbrev pub BehindAppend : Append → Type 0
  BehindAppend plan = Behind plan.write_off × Behind plan.write_end

  pub preflight_append-Behind :
      (name : Bytes) (len : ℕ) (c : Container)
      → Grown s c
      → OnOk BehindAppend (preflight_append name len c)
  unfolding preflight_append
  preflight_append-Behind name len c g = >>=-OnOk _ (member_or_error (find name c.dir)) _ λ m _.
      >>=-OnOk _ (check_free_count 0 c) _ λ _ _. >>=-OnOk _ (next_seq c) _ λ _ _.
        >>=-OnOk _ (checked_add m.len len member_length_overflow) _ λ _ _.
          >>=-OnOk _ (ends_at c.tail (last m.extents)) _ λ coalesce _.
            bail_if-OnOk _ (not coalesce && leb max_member_extents (length m.extents)) _ _ λ _.
              >>=-OnOk _ (if coalesce then ok c.tail else aligned_start c) _ λ off start.
                >>=-OnOk _ (checked_add off len length_overflow) _ λ end sum.
                  >>=-OnOk _
                    (if coalesce
                      then checked_add (last_len (last m.extents)) len extent_overflow
                      else ok 0)
                    _
                    λ _ _.
                      let behind = OnOk-ok Behind _ (start-Behind coalesce) start in
                      (behind, OnOk-ok Behind _ (checked_add-Behind off len behind) sum)
    where
      start-Behind :
          (coalesce : Bool) → OnOk Behind (if coalesce then ok c.tail else aligned_start c)
      start-Behind true = g.tail
      start-Behind false = aligned_start-Behind c g

  pub write_stream-Keeps :
      (disk : Disk) (rounds : ℕ) (fill : Fill) (len off at : ℕ) (hashed : Bytes)
      → Behind off
      → Keeps (Grown s) Any (write_stream disk rounds fill len off at hashed)
  unfolding write_stream
  write_stream-Keeps disk zero fill len off at hashed h = lift-Any {A = Bytes} (err out_of_fuel)
  write_stream-Keeps disk (suc rounds) fill len off at hashed h =
      if-Keeps (Grown s) Any (ltb at len) _ _
        (then-Keeps Any (lift (fill.window at size)) _ (lift-Any (fill.window at size)) λ chunk.
          >>=-Keeps (Grown s) Behind Any (lift (checked_add off at length_overflow)) _
            (lift-Keeps (Grown s) Behind _ (checked_add-Behind off at h))
            λ physical le.
              then-Keeps Any (write_out disk chunk physical) _
                (write_out-Keeps disk chunk physical le)
                λ _.
                  then-Keeps Any (lift (checked_add at size length_overflow)) _
                    (lift-Any (checked_add at size length_overflow))
                    λ _.
                      write_stream-Keeps disk rounds fill len off (at + size) (hashed ++ chunk) h)
        (pure-Keeps (Grown s) Any hashed tt)
    where
      size : ℕ
      size = min (window_len len) (len - at)

  pub modify-Keeps :
      (f : Container → Container)
      → ((c : Container) → Grown s c → Grown s (f c))
      → Keeps (Grown s) Any (modify f)
  modify-Keeps f h c g = (h c g, tt)

  -- A change of the fields that leaves the file and the committed state alone.
  pub restaged :
      (c c' : Container)
      → Grown s c
      → c'.sb ≡ c.sb
      → c'.slot ≡ c.slot
      → c'.read_limits ≡ c.read_limits
      → c'.file ≡ c.file
      → s.sb.tail ≤ c'.tail
      → Grown s c'
  restaged c c' g sb slot limits file tail = record {
    sb = sb ∙ g.sb;
    slot = slot ∙ g.slot;
    limits = limits ∙ g.limits;
    tail = tail;
    front = rw file g.front;
    long = rw file g.long;
  }
