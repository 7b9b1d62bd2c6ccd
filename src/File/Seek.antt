-- ===== src/File/Seek.antt =====
-- `calc_file_offset_ex` and `fcfs_api_lseek`. Offsets are integers without the bounds of
-- `int64_t`.
use fast_cfs.Base.{
  ℕ, ℤ, pos, negsuc, ◌+ℤ◌, ◌≡◌, ◌≢◌, Bool, true, Status, ok, err, ebadf, einval, is_ok, arith,
  if◌then◌else◌, ◌==◌, refl, int_laws,
}
use fast_cfs.File.Types.{FileInfo}
use fast_cfs.File.Services.{Reader}
use fast_cfs.File.Write.{magic_number}

pub data Whence : Type 0 where
  seek_set seek_cur seek_end : Whence
  invalid : ℕ → Whence

-- A result code, the new offset if that is 0, and the file with its entry perhaps refreshed.
pub record Target (S : Type 0) : Type 0 where
  pub status : Status
  pub new_offset : ℕ
  pub fi : FileInfo
  pub ext : S

-- The end of each case: `*new_offset` is set, and the call fails with EINVAL if it is negative.
unfoldable pub set_offset : {S : Type 0} → ℤ → FileInfo → S → Target S
set_offset (pos n) fi s = record { status = ok; new_offset = n; fi = fi; ext = s }
set_offset (negsuc n) fi s = record { status = err einval; new_offset = 0; fi = fi; ext = s }

module _ {S : Type 0} (reader : Reader S) where
  -- `calc_file_offset_ex`.
  unfoldable pub calc_file_offset : FileInfo → S → ℤ → Whence → Bool → Target S
  unfolding set_offset
  calc_file_offset fi s offset seek_set refresh = set_offset offset fi s
  calc_file_offset fi s offset seek_cur refresh = set_offset (pos fi.offset +ℤ offset) fi s
  calc_file_offset fi s offset seek_end refresh =
      let (q, e, s') = reader.stat s fi.dentry.inode in
      if refresh
      then (if is_ok q
          then set_offset (pos e.size +ℤ offset) (record fi { dentry = e }) s'
          else record { status = q; new_offset = 0; fi = fi; ext = s' })
      else set_offset (pos fi.dentry.size +ℤ offset) fi s
  calc_file_offset fi s offset (invalid n) refresh = record {
    status = err einval;
    new_offset = 0;
    fi = fi;
    ext = s;
  }

  unfoldable pub lseek : FileInfo → S → ℤ → Whence → Status × FileInfo × S
  unfolding calc_file_offset
  lseek fi s offset whence =
      let t = calc_file_offset fi s offset whence true in
      if fi.magic == magic_number
      then (t.status, if is_ok t.status then record t.fi { offset = t.new_offset } else t.fi, t.ext)
      else (err ebadf, fi, s)

  -- Where the offset counts from.
  abbrev pub base : FileInfo → S → Whence → ℕ
  base fi s seek_set = 0
  base fi s seek_cur = fi.offset
  base fi s seek_end = (reader.stat s fi.dentry.inode).1.size
  base fi s (invalid n) = 0

  set_offset_lem :
      (z : ℤ) (fi : FileInfo) (s : S)
      → ((set_offset z fi s).status ≡ ok → pos (set_offset z fi s).new_offset ≡ z)
        × ((set_offset z fi s).fi ≡ fi)
  unfolding set_offset
  set_offset_lem (pos n) fi s = ((λ e. refl), refl)
  set_offset_lem (negsuc n) fi s = ((λ e. cc), refl)

  zero-+ℤ : (z : ℤ) → pos 0 +ℤ z ≡ z
  zero-+ℤ z = omega int_laws

  -- When `lseek` succeeds, the file's offset is the sum of the base and the offset, which is then
  -- at least 0; when it fails, the file's offset is as it was. The base is 0, the file's offset,
  -- or the size that the directory service has just returned.
  pub lseek_lem :
      (fi : FileInfo) (s : S) (offset : ℤ) (whence : Whence)
      → let (r, fi', s') = lseek fi s offset whence in
        (r ≡ ok → pos fi'.offset ≡ pos (base fi s whence) +ℤ offset)
        × (r ≢ ok → fi'.offset ≡ fi.offset)
  unfolding lseek
  lseek_lem fi s offset seek_set = ground (arith, set_offset_lem offset fi s, zero-+ℤ offset)
  lseek_lem fi s offset seek_cur = ground (arith, set_offset_lem (pos fi.offset +ℤ offset) fi s)
  lseek_lem fi s offset seek_end =
      let (q, e, s') = reader.stat s fi.dentry.inode in
      ground (arith, set_offset_lem (pos e.size +ℤ offset) (record fi { dentry = e }) s')
  lseek_lem fi s offset (invalid n) = ground arith
