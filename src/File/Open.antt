-- ===== src/File/Open.antt =====
-- `deal_open_flags`, the part of opening a file that follows the access check, and
-- `fcfs_api_open_ex`, which calls it. The list of the operator's group ids, which it copies, is
-- left out.
pub mod Ready
use mathlib.Core.Option
use fast_cfs.Base.{
  ℕ, pos, Bool, true, false, not, ◌&&◌, ◌||◌, Option, none, some, Status, ok, err, enoent, eexist,
  eacces, eisdir, eloop, eperm, is_ok, if◌then◌else◌, ltb,
}
use fast_cfs.File.Types.{
  Mode, directory, regular, symlink, special, Dentry, OpenFlags, Context, FileInfo, Slicing,
}
use fast_cfs.File.Services.{Services, Reader, Store, World}
use fast_cfs.File.Write.{magic_number}
use fast_cfs.File.Truncate.{Truncated, file_truncate}

-- `fdir_client_create_dentry` and `fcfs_api_access_dentry_by_path_ex` for the path being opened.
pub record Directory (S : Type 0) : Type 0 where
  pub create_dentry : S → Status × Dentry × S
  pub access_dentry : S → Status × Dentry × S

pub record Opened (S : Type 0) : Type 0 where
  pub status : Status
  pub fi : FileInfo
  pub world : World S

abbrev pub is_directory : Mode → Bool
is_directory directory = true
is_directory _ = false

abbrev pub is_symlink : Mode → Bool
is_symlink symlink = true
is_symlink _ = false

module _ {S : Type 0} where
  -- A return with the result code.
  abbrev pub leave : Status → FileInfo → World S → Opened S
  leave r fi w = record { status = r; fi = fi; world = w }

module _ {S : Type 0} (dir : Directory S) where
  -- The entry to open for writing, with `r` the result of the first access check.
  unfoldable pub resolve : FileInfo → World S → Status → Opened S
  resolve fi w ok =
      if fi.flags.creat && fi.flags.excl then leave (err eexist) fi w else leave ok fi w
  resolve fi w (err enoent) =
      let (c, d, s) = dir.create_dentry w.ext in
      let (a, d', s') = dir.access_dentry s in
      if not fi.flags.creat then leave (err enoent) fi w else elim c [
        | ok ↦ leave ok (record fi { dentry = d }) (record w { ext = s })
        | err eexist ↦
            if fi.flags.excl
            then leave (err eexist) fi (record w { ext = s })
            else if is_ok a
            then leave ok (record fi { dentry = d' }) (record w { ext = s' })
            else leave a fi (record w { ext = s' })
        | err e ↦ leave (err e) fi (record w { ext = s })
      ]
  resolve fi w (err e) = leave (err e) fi w

abbrev pub position : FileInfo → FileInfo
position fi = record fi { offset = if fi.flags.append then fi.dentry.size else 0 }

module _ {S : Type 0} (api : Services S) (reader : Reader S) (store : Store S)
    (slicing : Slicing) where
  -- After `file_truncate`: the cached sizes become 0.
  unfoldable pub after_truncate : FileInfo → Truncated S → Opened S
  after_truncate fi t =
      if is_ok t.status
      then leave ok (position (record fi { dentry = record fi.dentry { size = 0; space_end = 0 } }))
          t.world
      else leave t.status fi t.world

  -- From the check of the file's type on.
  unfoldable pub finish_open : FileInfo → World S → Option (Opened S)
  unfolding after_truncate file_truncate
  finish_open fi w =
      let fi' = record fi { last_modified_time = fi.dentry.mtime } in
      if is_directory fi.dentry.mode
      then some (leave (err eisdir) fi w)
      else if fi.flags.nofollow && is_symlink fi.dentry.mode
      then some (leave (err eloop) fi w)
      else if fi.flags.trunc && ltb 0 fi.dentry.size
      then (if is_symlink fi.dentry.mode
          then some (leave (err eperm) fi' w)
          else Option.map (after_truncate fi')
              (file_truncate api reader store slicing fi.ctx w fi.dentry.inode (pos 0)))
      else some (leave ok (position fi') w)

  module _ (dir : Directory S) where
    unfoldable pub deal_open_flags : FileInfo → World S → Status → Option (Opened S)
    unfolding resolve finish_open
    deal_open_flags fi w r =
        let o = resolve dir fi w r in
        if not (fi.flags.wronly || fi.flags.rdwr)
        then some (leave (if fi.flags.trunc then err eacces else r) (record fi { offset = 0 }) w)
        else if is_ok o.status
        then finish_open o.fi o.world
        else some o

    -- `fcfs_api_open_ex`: the file gets its magic number if all went well.
    unfoldable pub open_file : Context → OpenFlags → FileInfo → World S → Option (Opened S)
    unfolding deal_open_flags
    open_file ctx flags fi w =
        let (r, e, s) = dir.access_dentry w.ext in
        let fi' = record fi { ctx = ctx; flags = flags; dentry = e } in
        Option.map
          (λ o.
            if is_ok o.status then record o { fi = record o.fi { magic = magic_number } } else o)
          (deal_open_flags fi' (record w { ext = s }) r)
