-- ===== src/File/Read.antt =====
-- `do_pread` and its callers `fcfs_api_pread_ex` and `fcfs_api_read_ex`. A `readv` differs in the
-- library's cursor over its vector.
pub mod Window
pub mod Hole
pub mod Round
pub mod Content
use fast_cfs.Base.{
  ℕ, zero, suc, ℤ, pos, negsuc, ◌+◌, ◌-◌, Bool, true, false, ◌&&◌, ◌||◌, Option, none, some, List,
  [], ◌++◌, Status, ok, err, enodata, einval, is_ok, if◌then◌else◌, ltb, leb, ◌==◌, length,
  replicate,
}
use fast_cfs.File.Types.{FileInfo, Dentry, SliceKey, Slicing}
use fast_cfs.File.Services.{Reader}
use fast_cfs.File.Write.{check_readable}

-- `result` after a slice: ENODATA counts as success.
unfoldable pub read_status : Status → Status
read_status ok = ok
read_status (err enodata) = ok
read_status (err e) = err e

-- The result code, the bytes of the slice, the file and the services after one round.
pub record SliceRead (S : Type 0) : Type 0 where
  pub status : Status
  pub bytes : List ℕ
  pub fi : FileInfo
  pub ext : S

module _ {S : Type 0} (api : Reader S) where
  -- The zeros for a hole: the part of the slice past the bytes read and before the file's end.
  unfoldable pub fill_hole : ℕ → ℕ → ℕ → List ℕ
  fill_hole size current_offset room =
      let hole : ℕ = size - current_offset in replicate (if ltb room hole then room else hole) 0

  -- The inner `while` of `do_pread`, which runs at most once.
  unfoldable pub deal_hole : FileInfo → S → SliceKey → ℕ → List ℕ → SliceRead S
  deal_hole fi s k position bytes =
      let current_offset : ℕ = position + length bytes in
      let room : ℕ = k.slice_length - length bytes in
      let (r, e, s') = api.stat s fi.dentry.inode in
      let plain : SliceRead S = record { status = ok; bytes = bytes; fi = fi; ext = s } in
      if leb k.slice_length (length bytes) || (current_offset == fi.dentry.size)
      then plain
      else if ltb fi.dentry.size current_offset
      then (if is_ok r
          then record {
            status = ok;
            bytes = bytes ++ fill_hole e.size current_offset room;
            fi = record fi { dentry = e };
            ext = s';
          }
          else record { status = r; bytes = bytes; fi = fi; ext = s' })
      else record plain { bytes = bytes ++ fill_hole fi.dentry.size current_offset room }

  -- The loop, with the bytes that the buffer holds so far. `none`: out of fuel.
  unfoldable pub read_loop :
      Slicing → ℕ → ℕ → ℕ → FileInfo → S → SliceKey → List ℕ → Option (SliceRead S)
  read_loop slicing size offset zero fi s k out = none
  read_loop slicing size offset (suc fuel) fi s k out =
      let (r, bytes, s') = api.slice_read s k in
      let d = deal_hole fi s' k (offset + length out) bytes in
      let out' = out ++ d.bytes in
      let rest =
        read_loop slicing size offset fuel d.fi d.ext
          (slicing.next_block_slice_key k (size - length out')) out' in
      if is_ok (read_status r)
      then (if leb size (length out') || ltb (length d.bytes) k.slice_length
          then some (record { status = d.status; bytes = out'; fi = d.fi; ext = d.ext })
          else rest)
      else some (record { status = r; bytes = out; fi = fi; ext = s' })

  -- `do_pread`; a slice is never empty, so a round of fuel for each byte is enough.
  unfoldable pub do_pread : Slicing → FileInfo → S → ℤ → ℕ → Option (SliceRead S)
  unfolding read_loop check_readable
  do_pread slicing fi s (negsuc n) offset =
      some (record { status = err einval; bytes = []; fi = fi; ext = s })
  do_pread slicing fi s (pos zero) offset =
      some (record { status = ok; bytes = []; fi = fi; ext = s })
  do_pread slicing fi s (pos (suc n)) offset =
      if is_ok (check_readable fi)
      then read_loop slicing (suc n) offset (suc (suc n)) fi s
          (slicing.set_block_slice fi.dentry.inode offset (suc n)) []
      else some (record { status = check_readable fi; bytes = []; fi = fi; ext = s })

  -- `fcfs_api_read_ex`: reads at the file's offset, and moves it if that succeeds.
  unfoldable pub read : Slicing → FileInfo → S → ℤ → Option (SliceRead S)
  unfolding do_pread
  read slicing fi s size = elim (do_pread slicing fi s size fi.offset) [
    | none ↦ none
    | some r ↦ some (
        if is_ok r.status
        then record r { fi = record r.fi { offset = r.fi.offset + length r.bytes } }
        else r)
  ]
