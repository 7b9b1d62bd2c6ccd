-- ===== src/File/Write.antt =====
-- src/api/fcfs_api_file.c: `do_pwrite`, the checks of its callers, and the reports of the new size that each slice sends. A `writev` differs in the library's cursor over its vector.
pub mod Cover
pub mod Size
pub mod Source
use fast_cfs.Base.{
  ℕ, zero, suc, ℤ, pos, negsuc, ◌+◌, ◌-◌, ◌≡◌, Bool, true, false, not, ◌&&◌, ◌||◌, Option, none,
  some, List, [], ◌∷◌, ◌++◌, Status, ok, err, Errno, eio, ebadf, eisdir, eperm, einval, is_ok,
  if◌then◌else◌, ltb, leb, ◌==◌, ◌+ℤ◌, is_zero,
}
use fast_cfs.File.Types.{
  Mode, directory, regular, symlink, special, Dentry, OpenFlags, Context, FileInfo, Modified,
  DentrySize, SliceKey, Slicing, start,
}
use fast_cfs.File.Services.{Services, WriteReply, World, report_size_and_time}

abbrev pub magic_number : ℕ
magic_number = 1588076578

-- What one call of `fs_api_slice_write` stored: its place in the file, the position of the
-- source bytes in the caller's buffer, and their number.
pub record Chunk : Type 0 where
  pub offset : ℕ
  pub buff : ℕ
  pub bytes : ℕ

-- The local variables of `do_pwrite`; `chunks` records the calls that stored something.
pub record Progress (S : Type 0) : Type 0 where
  pub world : World S
  pub fi : FileInfo
  pub key : SliceKey
  pub buff : ℕ
  pub new_offset : ℕ
  pub written_bytes : ℕ
  pub total_inc_alloc : ℤ
  pub chunks : List Chunk

-- The flags that `fcfs_api_file_report_size_and_time` computes for a write that ends at `end`.
unfoldable pub report_flags : ℕ → Dentry → ℕ → ℕ → ℤ → Modified
report_flags end_offset e last_modified now inc =
    let grown : Bool = ltb e.size end_offset in
    let spread : Bool = grown || ltb e.space_end end_offset in
    let inside : Bool = not (is_zero inc) && not spread in
    record {
      file_size = grown || inside;
      space_end = spread || inside;
      inc_alloc = not (is_zero inc);
      mtime = not grown && ltb last_modified now && not inside;
    }

abbrev pub any_flag : Modified → Bool
any_flag m = m.file_size || m.space_end || m.inc_alloc || m.mtime

module _ {S : Type 0} where
  -- The key and the buffer for the next round.
  unfoldable pub advance : Slicing → ℕ → WriteReply → Progress S → Progress S
  advance s remain r p = record p {
    key =
        if r.write_bytes == p.key.slice_length
        then s.next_block_slice_key p.key remain
        else s.set_slice_size p.key p.new_offset remain;
    buff = p.buff + p.written_bytes;
  }

  unfoldable pub init_progress : Slicing → World S → FileInfo → ℕ → ℕ → Progress S
  init_progress s w fi size offset = record {
    world = w;
    fi = fi;
    key = s.set_block_slice fi.dentry.inode offset size;
    buff = 0;
    new_offset = offset;
    written_bytes = 0;
    total_inc_alloc = pos 0;
    chunks = [];
  }

module _ {S : Type 0} (api : Services S) where
  -- `fcfs_api_file_report_size_and_time`; `do_pwrite` reads the flags and drops the result.
  unfoldable pub file_report :
      World S → FileInfo → SliceKey → WriteReply → Modified × Dentry × World S
  unfolding report_flags report_size_and_time
  file_report w fi k r =
      let end_offset : ℕ = start k + r.write_bytes in
      let m =
        report_flags end_offset fi.dentry fi.last_modified_time (api.current_time w.ext)
          r.inc_alloc in
      let d : DentrySize = record {
        inode = k.oid;
        file_size = end_offset;
        inc_alloc = r.inc_alloc;
        force = false;
        flags = m;
      } in
      let (q, e, w') = report_size_and_time api w fi.ctx.async_report d fi.dentry in
      if any_flag m then (m, e, w') else (m, fi.dentry, w)

  -- The counters after a slice, and its report.
  unfoldable pub account : Bool → WriteReply → Progress S → Progress S
  unfolding file_report
  account need_report r p =
      let (m, e, w) = file_report p.world p.fi p.key r in
      let time : ℕ = if m.mtime then api.current_time w.ext else p.fi.last_modified_time in
      record p {
        new_offset = p.new_offset + r.write_bytes;
        written_bytes = p.written_bytes + r.write_bytes;
        total_inc_alloc = p.total_inc_alloc +ℤ r.inc_alloc;
        chunks =
            p.chunks
            ++ (record { offset = start p.key; buff = p.buff; bytes = r.write_bytes } ∷ []);
        world = if need_report then w else p.world;
        fi = if need_report then record p.fi { dentry = e; last_modified_time = time } else p.fi;
      }

  -- The loop. `none`: out of fuel.
  unfoldable pub write_loop : Slicing → Bool → ℕ → ℕ → Progress S → Option (Progress S)
  unfolding account advance
  write_loop s need_report size zero p = none
  write_loop s need_report size (suc fuel) p =
      let (r, ext) = api.slice_write p.world.ext p.key p.buff in
      let q = record p { world = record p.world { ext = ext } } in
      let q' = account need_report r q in
      let rest = write_loop s need_report size fuel (advance s (size - q'.written_bytes) r q') in
      if not (is_ok r.status) && (r.write_bytes == 0)
      then some q
      else if leb size q'.written_bytes
      then some q'
      else rest

  -- `do_pwrite`, with a round of fuel for each byte and one more.
  unfoldable pub do_pwrite :
      Slicing → Bool → World S → FileInfo → ℕ → ℕ → Option (Status × Progress S)
  unfolding write_loop init_progress
  do_pwrite s need_report w fi size offset =
      elim (write_loop s need_report size (suc size) (init_progress s w fi size offset)) [
        | none ↦ none
        | some p ↦ some (if ltb 0 p.written_bytes then ok else err eio, p)
      ]

-- `check_writable`
unfoldable pub check_writable : FileInfo → Status
check_writable fi =
    if not (fi.magic == magic_number) || not (fi.flags.wronly || fi.flags.rdwr)
    then err ebadf
    else elim fi.dentry.mode [ directory ↦ err eisdir | regular ↦ ok | _ ↦ err eperm ]

-- `check_readable`
unfoldable pub check_readable : FileInfo → Status
check_readable fi =
    if not (fi.magic == magic_number) || fi.flags.wronly
    then err ebadf
    else elim fi.dentry.mode [ directory ↦ err eisdir | regular ↦ ok | _ ↦ err eperm ]
