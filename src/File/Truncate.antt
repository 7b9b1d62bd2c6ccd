-- ===== src/File/Truncate.antt =====
-- `do_truncate`, `do_allocate` and `file_truncate` with its lock and its report.

pub mod Extents
pub mod Report
pub mod Total
use mathlib.Core.Option
use fast_cfs.Base.{
  ℕ, zero, suc, ℤ, pos, negsuc, ◌+◌, ◌-◌, ◌+ℤ◌, ◌-ℤ◌, Bool, true, false, not, ◌&&◌, Option, none,
  some, List, [], ◌∷◌, ◌++◌, Status, ok, err, Errno, enoent, einval, is_ok, if◌then◌else◌, ltb, leb,
  ◌==◌, is_zero,
}
use fast_cfs.File.Types.{Context, special, SliceKey, Slicing, DentrySize, Modified, start}
use fast_cfs.File.Services.{Services, Reader, Store, World, async_reporter_push}

-- The part of the file that one call was about.
pub record Extent : Type 0 where
  pub offset : ℕ
  pub length : ℕ

pub record Walked (S : Type 0) : Type 0 where
  pub status : Status
  pub total : ℤ
  pub ext : S
  pub extents : List Extent

-- `result == ENOENT` counts as success that frees nothing.
unfoldable pub truncate_result : Status → ℤ → Status × ℤ
truncate_result ok dec = (ok, pos 0 -ℤ dec)
truncate_result (err enoent) dec = (ok, pos 0)
truncate_result (err e) dec = (err e, pos 0)

module _ {S : Type 0} where
  -- The loop that both functions have, over the call of a round. `none`: out of fuel.
  unfoldable pub walk :
      Slicing → (S → SliceKey → Status × ℤ × S) → ℕ → SliceKey → ℕ → Walked S → Option (Walked S)
  walk slicing op zero k remain w = none
  walk slicing op (suc fuel) k remain w =
      let (r, n, s) = op w.ext k in
      let left : ℕ = remain - k.slice_length in
      let w' = record w {
        status = ok;
        total = w.total +ℤ n;
        ext = s;
        extents = w.extents ++ (record { offset = start k; length = k.slice_length } ∷ []);
      } in
      let rest = walk slicing op fuel (slicing.next_block_slice_key k left) left w' in
      if is_ok r
      then (if left == 0 then some w' else rest)
      else some (record w { status = r; ext = s })

  abbrev pub nothing : S → Walked S
  nothing s = record { status = ok; total = pos 0; ext = s; extents = [] }

module _ {S : Type 0} (store : Store S) (slicing : Slicing) where
  -- One call of `do_truncate`'s loop: a whole block is deleted as such.
  unfoldable pub truncate_op : S → SliceKey → Status × ℤ × S
  unfolding truncate_result
  truncate_op s k =
      let (r, dec, s') =
        if k.slice_length == slicing.block_size
        then store.block_delete s k
        else store.slice_delete s k in
      let (r', n) = truncate_result r dec in (r', n, s')

  unfoldable pub do_truncate : ℕ → ℕ → ℕ → ℕ → S → Option (Walked S)
  unfolding walk truncate_op
  do_truncate oid old_space_end offset length s =
      let remain : ℕ =
        if ltb old_space_end (offset + length) then old_space_end - offset else length in
      if leb old_space_end offset
      then some (nothing s)
      else walk slicing truncate_op (suc remain) (slicing.set_block_slice oid offset remain) remain
          (nothing s)

  unfoldable pub do_allocate : ℕ → ℕ → ℕ → S → Option (Walked S)
  unfolding walk
  do_allocate oid offset length s =
      if length == 0
      then some (nothing s)
      else walk slicing store.slice_allocate (suc length)
          (slicing.set_block_slice oid offset length) length (nothing s)

-- What `file_truncate` returns, and the calls it made.
pub record Truncated (S : Type 0) : Type 0 where
  pub status : Status
  pub world : World S
  pub extents : List Extent

module _ {S : Type 0} (api : Services S) (reader : Reader S) (store : Store S)
    (slicing : Slicing) where
  abbrev pub locks : Context → Bool
  locks ctx = ctx.use_sys_lock_for_append && not ctx.async_report

  -- The result, the old size and the old space end.
  unfoldable pub check_and_sys_lock : Context → S → ℕ → Status × ℕ × ℕ × S
  check_and_sys_lock ctx s oid =
      let (r, e, s') = reader.stat s oid in
      if locks ctx then api.sys_lock s oid else (r, e.size, e.space_end, s')

  -- `report_size_and_time` with `dentry == NULL`.
  unfoldable pub report_no_dentry : Context → World S → DentrySize → Status × World S
  unfolding async_reporter_push
  report_no_dentry ctx w d =
      let (r, e, s) =
        api.set_dentry_size w.ext d
          (record { inode = d.inode; mode = special; size = 0; space_end = 0; mtime = 0 }) in
      if ctx.async_report then async_reporter_push api w d else (r, record w { ext = s })

  unfoldable pub check_and_sys_unlock :
      Context → World S → ℕ → DentrySize → Status → Status × World S
  unfolding report_no_dentry
  check_and_sys_unlock ctx w old_size d r =
      let (u, s) = api.sys_unlock w.ext (is_ok r) old_size d in
      if locks ctx
      then (if is_ok r then u else r, record w { ext = s })
      else (if is_ok r then report_no_dentry ctx w d else (r, w))

  abbrev pub no_flags : Modified
  no_flags = record { file_size = false; space_end = false; inc_alloc = false; mtime = false }

  -- The report for a file of `old_size` bytes cut or extended to `new_size`, `total` as summed
  -- up by `do_truncate`.
  unfoldable pub truncate_report : ℕ → ℕ → ℕ → ℕ → ℤ → DentrySize
  truncate_report oid new_size old_size space_end total =
      let shrinks : Bool = ltb new_size old_size in
      record {
        inode = oid;
        file_size = new_size;
        inc_alloc = if shrinks then total else pos 0;
        force = true;
        flags =
            if shrinks
            then record no_flags {
              file_size = true;
              space_end = ltb new_size space_end;
              inc_alloc = not (is_zero total);
            }
            else record no_flags { file_size = not (new_size == old_size) };
      }

  -- The end of `file_truncate`, after the calls that `c` stands for.
  unfoldable pub finish_truncate : Context → World S → ℕ → ℕ → ℕ → ℕ → Walked S → Truncated S
  unfolding truncate_report check_and_sys_unlock
  finish_truncate ctx w oid new_size old_size space_end c =
      let d = truncate_report oid new_size old_size space_end c.total in
      let (u, w') = check_and_sys_unlock ctx (record w { ext = c.ext }) old_size d c.status in
      record { status = u; world = w'; extents = c.extents }

  unfoldable pub file_truncate : Context → World S → ℕ → ℤ → Option (Truncated S)
  unfolding check_and_sys_lock do_truncate finish_truncate
  file_truncate ctx w oid (negsuc n) =
      some (record { status = err einval; world = w; extents = [] })
  file_truncate ctx w oid (pos new_size) =
      let (r, old_size, space_end, s) = check_and_sys_lock ctx w.ext oid in
      let cut =
        if ltb new_size old_size
        then do_truncate store slicing oid space_end new_size (old_size - new_size) s
        else some (nothing s) in
      if is_ok r
      then Option.map (finish_truncate ctx (record w { ext = s }) oid new_size old_size space_end)
          cut
      else some (record { status = r; world = record w { ext = s }; extents = [] })
