-- ===== src/File/Open/Ready.antt =====
-- What `deal_open_flags` promises of a file that it opens for writing.
use fast_cfs.Base.{
  pos, ◌≡◌, refl, subst, eisdir, eloop, eperm, true, false, ◌&&◌, ◌||◌, some, Status, ok, err,
  enoent, is_ok, Status-cases, Bool-cases, inl, inr, arith, ltb,
}
use fast_cfs.File.Types.{FileInfo, OpenFlags, Slicing, IsSlicing}
use fast_cfs.File.Services.{Services, Reader, Store, World}
use fast_cfs.File.Truncate.{Truncated}
use fast_cfs.File.Truncate.Total.{file_truncate_returns}
use fast_cfs.File.Open.{
  Directory, Opened, leave, position, is_directory, is_symlink, resolve, after_truncate,
  finish_open, deal_open_flags,
}

-- The file is no directory, is empty if it was to be cut, and is positioned at its end for
-- appending and at its start otherwise.
pub record IsReady (flags : OpenFlags) (fi : FileInfo) : Type 0 where
  pub same : fi.flags ≡ flags
  pub not_directory : is_directory fi.dentry.mode ≡ false
  pub cut : fi.flags.trunc ≡ true → fi.dentry.size ≡ 0
  pub at_end : fi.flags.append ≡ true → fi.offset ≡ fi.dentry.size
  pub at_start : fi.flags.append ≡ false → fi.offset ≡ 0
  pub notified : fi.last_modified_time ≡ fi.dentry.mtime

module _ {S : Type 0} (api : Services S) (reader : Reader S) (store : Store S)
    (slicing : Slicing) where
  after_truncate-IsReady :
      (fi : FileInfo) (t : Truncated S)
      → is_directory fi.dentry.mode ≡ false
      → fi.last_modified_time ≡ fi.dentry.mtime
      → (after_truncate api reader store slicing fi t).status ≡ ok
      → IsReady fi.flags (after_truncate api reader store slicing fi t).fi
  unfolding after_truncate
  after_truncate-IsReady fi t file noted fine = ground arith

  finish_open-IsReady :
      (fi : FileInfo) (w : World S)
      → IsSlicing slicing
      → (o : Opened S) × (finish_open api reader store slicing fi w ≡ some o)
        × (o.status ≡ ok → IsReady fi.flags o.fi)
  unfolding finish_open
  finish_open-IsReady fi w laws = elim (Bool-cases (is_directory fi.dentry.mode)) [
    | inl dir ↦ (leave (err eisdir) fi w, rw dir, λ fine. cc)
    | inr file ↦ elim (Bool-cases (fi.flags.nofollow && is_symlink fi.dentry.mode)) [
      | inl link ↦ (leave (err eloop) fi w, rw (file, link), λ fine. cc)
      | inr follow ↦ elim (Bool-cases (fi.flags.trunc && ltb 0 fi.dentry.size)) [
        | inr keep ↦ (leave ok (position fi') w, rw (file, follow, keep), λ fine. ground arith)
        | inl cut ↦ elim (Bool-cases (is_symlink fi.dentry.mode)) [
          | inl link ↦ (leave (err eperm) fi' w, rw (file, follow, cut, link), λ fine. cc)
          | inr plain ↦
              let (t, e) =
                file_truncate_returns api reader store slicing fi.ctx w fi.dentry.inode (pos 0)
                  laws in
              (
                after_truncate api reader store slicing fi' t,
                rw (file, follow, cut, plain, e),
                λ fine. after_truncate-IsReady fi' t file refl fine,
              )
        ]
      ]
    ]
  ]
    where
      fi' : FileInfo
      fi' = record fi { last_modified_time = fi.dentry.mtime }

  module _ (dir : Directory S) where
    resolve-flags :
        (fi : FileInfo) (w : World S) (r : Status) → (resolve dir fi w r).fi.flags ≡ fi.flags
    unfolding resolve
    resolve-flags fi w ok = ground arith
    resolve-flags fi w (err enoent) = ground arith
    resolve-flags fi w (err e) = refl

    -- With O_CREAT and O_EXCL a file is opened only if the first access check did not find it.
    resolve_exclusive :
        (fi : FileInfo) (w : World S) (r : Status)
        → fi.flags.creat ≡ true
        → fi.flags.excl ≡ true
        → is_ok (resolve dir fi w r).status ≡ true
        → r ≡ err enoent
    unfolding resolve
    resolve_exclusive fi w ok c x h = ground arith
    resolve_exclusive fi w (err enoent) c x h = refl
    resolve_exclusive fi w (err e) c x h = cc

    -- With slices as `IsSlicing` says, opening a file for writing always returns. If it succeeds,
    -- the file has the flags given and is no directory, its cached size is 0 under O_TRUNC, its
    -- offset is the cached size under O_APPEND and 0 otherwise, and under O_CREAT and O_EXCL the
    -- first access check had answered ENOENT.
    pub deal_open_flags-IsReady :
        (fi : FileInfo) (w : World S) (r : Status)
        → IsSlicing slicing
        → fi.flags.wronly || fi.flags.rdwr ≡ true
        → (o : Opened S) × (deal_open_flags api reader store slicing dir fi w r ≡ some o)
          × (o.status ≡ ok
              → IsReady fi.flags o.fi
                × (fi.flags.creat ≡ true → fi.flags.excl ≡ true → r ≡ err enoent))
    unfolding deal_open_flags
    deal_open_flags-IsReady fi w r laws writes =
        let p = resolve dir fi w r in
        elim (Status-cases p.status) [
          | inl good ↦
              let (o, e, ready) = finish_open-IsReady p.fi p.world laws in
              (
                o,
                rw (writes, good) e,
                λ fine. (
                  subst (λ f. IsReady f o.fi) (resolve-flags fi w r) (ready fine),
                  λ c x. resolve_exclusive fi w r c x good,
                ),
              )
          | inr bad ↦ (p, rw (writes, bad), λ fine. absurd (ground arith))
        ]
