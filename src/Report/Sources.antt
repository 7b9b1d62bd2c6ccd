-- ===== src/Report/Sources.antt =====
-- The reports that the file operations queue are such that merging keeps their meaning.
use fast_cfs.Base.{
  ℕ, ℤ, pos, ◌+◌, ◌<◌, ◌⊎◌, ◌≡◌, err, eio, some, Bool, true, false, [], ◌∷◌, All, All-append,
  is_zero, if◌then◌else◌, ltb, arith, Bool-cases, inl, inr, ok,
}
use fast_cfs.File.Types.{FileInfo, SliceKey, DentrySize, start, Dentry, Slicing, IsSlicing}
use fast_cfs.File.Services.{
  IsWriter, Services, World, WriteReply, async_reporter_push, report_size_and_time,
}
use fast_cfs.File.Write.Cover.{do_pwrite-Stored}
use fast_cfs.File.Write.{
  Progress, account, advance, init_progress, do_pwrite, report_flags, file_report, any_flag,
}

-- A report without the flag of the allocated bytes allocates none, and one with the flag of the
-- size has that of the space end.
abbrev pub Clean : DentrySize → Type 0
Clean d =
    (d.flags.inc_alloc ≡ false → d.inc_alloc ≡ pos 0)
    × (d.flags.file_size ≡ true → d.flags.space_end ≡ true)

zero_of : (z : ℤ) → is_zero z ≡ true → z ≡ pos 0
zero_of z h = ground arith

module _ {S : Type 0} (api : Services S) where
  push-Clean :
      (w : World S) (d : DentrySize)
      → Clean d
      → All Clean w.queue
      → All Clean (async_reporter_push api w d).1.queue
  unfolding async_reporter_push
  push-Clean w d c all = elim (Bool-cases (api.alloc_event w.ext).0) [
    | inl got ↦ rw got (All-append Clean w.queue (d ∷ []) all (c, tt))
    | inr full ↦ rw full all
  ]

  report_size_and_time-Clean :
      (w : World S) (async : Bool) (d : DentrySize) (e : Dentry)
      → Clean d
      → All Clean w.queue
      → All Clean (report_size_and_time api w async d e).2.queue
  unfolding report_size_and_time
  report_size_and_time-Clean w true d e c all = push-Clean w d c all
  report_size_and_time-Clean w false d e c all = all

  file_report-Clean :
      (w : World S) (fi : FileInfo) (k : SliceKey) (r : WriteReply)
      → All Clean w.queue
      → All Clean (file_report api w fi k r).2.queue
  unfolding file_report report_flags
  file_report-Clean w fi k r all =
      elim (Bool-cases (
        any_flag (
          report_flags (start k + r.write_bytes) fi.dentry fi.last_modified_time
            (api.current_time w.ext) r.inc_alloc))) [
              | inl some_flag ↦ rw some_flag (
                  report_size_and_time-Clean w fi.ctx.async_report _ fi.dentry
                    ((λ h. zero_of r.inc_alloc (ground arith)), (λ h. ground arith)) all)
              | inr none_set ↦ rw none_set all
            ]

  account-Clean :
      (need : Bool) (r : WriteReply) (p : Progress S)
      → All Clean p.world.queue
      → All Clean (account api need r p).world.queue
  unfolding account
  account-Clean true r p h = file_report-Clean p.world p.fi p.key r h
  account-Clean false r p h = h

  advance-Clean :
      (s : Slicing) (r : WriteReply) (remain : ℕ) (p : Progress S)
      → All Clean p.world.queue
      → All Clean (advance s remain r p).world.queue
  unfolding advance
  advance-Clean s r remain p h = h

  either : {A : Type 0} → A ⊎ A → A
  either (inl a) = a
  either (inr a) = a

  -- With slices as `IsSlicing` says and a store as `IsWriter` says, a write of at least one byte
  -- that begins with a queue of clean reports ends with one, whether it succeeds or not: each
  -- report without the flag of the allocated bytes allocates none, and each with the flag of the
  -- size has that of the space end.
  pub do_pwrite-Clean :
      (s : Slicing) (need : Bool) (world : World S) (fi : FileInfo) (size offset : ℕ)
      → IsSlicing s
      → IsWriter api
      → 0 < size
      → All Clean world.queue
      → (p : Progress S) × (do_pwrite api s need world fi size offset
          ≡ some (if ltb 0 p.written_bytes then ok else err eio, p))
        × All Clean p.world.queue
  unfolding init_progress
  do_pwrite-Clean s need world fi size offset laws w lt clean =
      let (p, e, st, i) =
        do_pwrite-Stored api s laws w need (λ p. All Clean p.world.queue)
          (λ p. All Clean p.world.queue) (λ p x h. h) (λ r p at le pos h. account-Clean need r p h)
          (λ r remain p h. advance-Clean s r remain p h) world fi size offset lt clean in
      (p, e, either i)
