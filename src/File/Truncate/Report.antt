-- ===== src/File/Truncate/Report.antt =====
-- `file_truncate` with its reports queued (`async_report.enabled`): what is freed, and the one
-- report that it sends.
use fast_cfs.Base.{
  ℕ, pos, ◌+◌, ◌-◌, ◌≡◌, ◌≢◌, refl, ap, subst, ◌∙◌, some, List, [], ◌∷◌, ◌++◌, Status, ok, true,
  Bool-cases, inl, inr, arith, if◌then◌else◌, ltb, min, max,
}
use fast_cfs.File.Types.{Context, Dentry, Slicing, IsSlicing, DentrySize}
use fast_cfs.File.Services.{Services, Reader, Store, World}
use fast_cfs.File.Truncate.{
  Walked, Truncated, nothing, do_truncate, check_and_sys_lock, check_and_sys_unlock,
  truncate_report, finish_truncate, file_truncate,
}
use fast_cfs.File.Truncate.Extents.{Covers, do_truncate-Went}

-- The end of the range that is freed when a file of `old_size` bytes with blocks up to
-- `space_end` is cut to `new_size`.
abbrev pub freed_end : ℕ → ℕ → ℕ → ℕ
freed_end new_size old_size space_end =
    if ltb new_size old_size then max new_size (min old_size space_end) else new_size

-- What a successful truncation has done.
pub record Cut {S : Type 0} (queue : List DentrySize) (oid new_size old_size space_end : ℕ)
    (t : Truncated S) : Type 0 where
  pub freed : Covers new_size t.extents (freed_end new_size old_size space_end)
  pub report : DentrySize
  pub queued : t.world.queue ≡ queue ++ (report ∷ [])
  pub inode : report.inode ≡ oid
  pub file_size : report.file_size ≡ new_size
  pub force : report.force ≡ true
  pub flag : new_size ≢ old_size → report.flags.file_size ≡ true

module _ {S : Type 0} (api : Services S) (reader : Reader S) (store : Store S)
    (slicing : Slicing) where
  unlock-queue :
      (ctx : Context) (w : World S) (old_size : ℕ) (d : DentrySize) (r : Status)
      → ctx.async_report ≡ true
      → let (u, w') = check_and_sys_unlock api reader store slicing ctx w old_size d r in
        u ≡ ok → (r ≡ ok) × (w'.queue ≡ w.queue ++ (d ∷ []))
  unfolding check_and_sys_unlock
  unlock-queue ctx w old_size d r on fine = ground arith

  lock_stat :
      (ctx : Context) (s : S) (oid : ℕ)
      → ctx.async_report ≡ true
      → check_and_sys_lock api reader store slicing ctx s oid ≡ (
        (reader.stat s oid).0,
        (reader.stat s oid).1.size,
        (reader.stat s oid).1.space_end,
        (reader.stat s oid).2,
      )
  unfolding check_and_sys_lock
  lock_stat ctx s oid on = ground arith

  finish-Cut :
      (ctx : Context) (w : World S) (oid new_size : ℕ) (e : Dentry) (c : Walked S)
      → ctx.async_report ≡ true
      → (c.status ≡ ok → Covers new_size c.extents (freed_end new_size e.size e.space_end))
      → (finish_truncate api reader store slicing ctx w oid new_size e.size e.space_end c).status
        ≡ ok
      → Cut w.queue oid new_size e.size e.space_end
          (finish_truncate api reader store slicing ctx w oid new_size e.size e.space_end c)
  unfolding finish_truncate
  finish-Cut ctx w oid new_size e c on covered fine =
      let (good, queued) =
        unlock-queue ctx (record w { ext = c.ext }) e.size
          (truncate_report api reader store slicing oid new_size e.size e.space_end c.total)
          c.status on fine in
      record {
        freed = covered good;
        report = truncate_report api reader store slicing oid new_size e.size e.space_end c.total;
        queued = queued;
        inode = refl;
        file_size = refl;
        force = refl;
        flag = λ ne. ground arith;
      }

  file_truncate-finish :
      (ctx : Context) (w : World S) (oid new_size : ℕ) (c : Walked S)
      → ctx.async_report ≡ true
      → (reader.stat w.ext oid).0 ≡ ok
      → let (r, e, s) = reader.stat w.ext oid in
        (if ltb new_size e.size
            then do_truncate store slicing oid e.space_end new_size (e.size - new_size) s
            else some (nothing s))
          ≡ some c
        → file_truncate api reader store slicing ctx w oid (pos new_size)
          ≡ some (
              finish_truncate api reader store slicing ctx
                (record w { ext = s })
                oid
                new_size
                e.size
                e.space_end
                c)
  unfolding file_truncate
  file_truncate-finish ctx w oid new_size c on found eq = rw (lock_stat ctx w.ext oid on, found, eq)

  -- With slices as `IsSlicing` says, reports queued, and a file whose entry is found, a truncation
  -- to a size of at least 0 ends; if it succeeds, it has made calls for the range from the new
  -- size to the end of the file's blocks or of the file, whichever comes first, and none when the
  -- file does not shrink, and it has queued exactly one report: a forced one of the new size of
  -- this file, flagged as such if the size changes.
  pub file_truncate-Cut :
      (ctx : Context) (w : World S) (oid new_size : ℕ)
      → IsSlicing slicing
      → ctx.async_report ≡ true
      → (reader.stat w.ext oid).0 ≡ ok
      → let e = (reader.stat w.ext oid).1 in
        (t : Truncated S) × (file_truncate api reader store slicing ctx w oid (pos new_size)
          ≡ some t)
        × (t.status ≡ ok → Cut w.queue oid new_size e.size e.space_end t)
  file_truncate-Cut ctx w oid new_size laws on found = elim (Bool-cases (ltb new_size e.size)) [
    | inl shrinks ↦
        let (c, eq, went) =
          do_truncate-Went store slicing laws oid e.space_end new_size (e.size - new_size)
            (reader.stat w.ext oid).2 (ground arith) in
        (
          finish_truncate api reader store slicing ctx w' oid new_size e.size e.space_end c,
          file_truncate-finish ctx w oid new_size c on found (rw (shrinks, eq)),
          finish-Cut ctx w' oid new_size e c on λ good.
              rw shrinks
                (subst (Covers new_size c.extents) (went.complete good ∙ ends shrinks) went.cover),
        )
    | inr grows ↦ (
      finish_truncate api reader store slicing ctx w' oid new_size e.size e.space_end
          (nothing (reader.stat w.ext oid).2),
      file_truncate-finish ctx w oid new_size _ on found (rw grows),
      finish-Cut ctx w' oid new_size e _ on λ good. rw grows refl,
    )
  ]
    where
      w' : World S
      w' = record w { ext = (reader.stat w.ext oid).2 }

      e : Dentry
      e = (reader.stat w.ext oid).1

      ends :
          ltb new_size e.size ≡ true
          → max new_size (min (new_size + (e.size - new_size)) e.space_end)
            ≡ max new_size (min e.size e.space_end)
      ends shrinks = ap (λ n. max new_size (min n e.space_end)) (ground arith)
