-- ===== src/File/Calls.antt =====
-- `pwrite_wrapper` and `do_write`, the bodies of `fcfs_api_pwrite_ex` and `fcfs_api_write_ex`.
pub mod Offset
use mathlib.Core.Option
use fast_cfs.Base.{
  ℕ, zero, suc, ℤ, pos, negsuc, ◌+◌, Bool, true, false, not, ◌&&◌, Option, none, some, List, [],
  Status, ok, err, einval, is_ok, if◌then◌else◌, ltb,
}
use fast_cfs.File.Types.{FileInfo, DentrySize, Slicing, Context}
use fast_cfs.File.Services.{Services, World}
use fast_cfs.File.Write.{Chunk, Progress, check_writable, do_pwrite}

-- The result code, `*written_bytes`, and the file and the services afterwards; `chunks` records
-- what was stored.
pub record Written (S : Type 0) : Type 0 where
  pub status : Status
  pub written_bytes : ℕ
  pub fi : FileInfo
  pub world : World S
  pub chunks : List Chunk

abbrev pub results : {S : Type 0} → Status × Progress S → Written S
results (r, p) = record {
  status = r;
  written_bytes = p.written_bytes;
  fi = p.fi;
  world = p.world;
  chunks = p.chunks;
}

module _ {S : Type 0} (api : Services S) (slicing : Slicing) where
  -- `old_written` is what `*written_bytes` holds before the call, which a call that writes
  -- nothing does not touch.
  unfoldable pub pwrite : World S → FileInfo → ℤ → ℕ → ℕ → Option (Written S)
  unfolding do_pwrite check_writable
  pwrite w fi (negsuc n) offset old_written =
      some (record {
        status = err einval;
        written_bytes = old_written;
        fi = fi;
        world = w;
        chunks = [];
      })
  pwrite w fi (pos zero) offset old_written =
      some (record { status = ok; written_bytes = old_written; fi = fi; world = w; chunks = [] })
  pwrite w fi (pos (suc n)) offset old_written =
      let refused : Written S = record {
        status = check_writable fi;
        written_bytes = old_written;
        fi = fi;
        world = w;
        chunks = [];
      } in
      if is_ok (check_writable fi)
      then Option.map results (do_pwrite api slicing true w fi (suc n) offset)
      else some refused

  abbrev pub use_sys_lock : FileInfo → Bool
  use_sys_lock fi = fi.ctx.use_sys_lock_for_append && not fi.ctx.async_report && fi.flags.append

  -- After `do_pwrite`: the offset moves if that succeeded.
  unfoldable pub moved : Status → Progress S → FileInfo
  moved r p = if is_ok r then record p.fi { offset = p.fi.offset + p.written_bytes } else p.fi

  -- The report that goes with the unlock.
  unfoldable pub append_report : FileInfo → Progress S → DentrySize
  append_report fi p = record {
    inode = fi.dentry.inode;
    file_size = fi.offset;
    inc_alloc = p.total_inc_alloc;
    force = false;
    flags = record { file_size = true; space_end = true; inc_alloc = false; mtime = false };
  }

  -- What `do_write` does after `do_pwrite`.
  unfoldable pub after_pwrite : Bool → ℕ → Status × Progress S → Written S
  unfolding moved append_report
  after_pwrite locked old_size (r, p) =
      let fi' = moved r p in
      let (u, s) =
        api.sys_unlock p.world.ext (ltb old_size fi'.offset) old_size (append_report fi' p) in
      record {
        status = r;
        written_bytes = p.written_bytes;
        fi = fi';
        world = if locked then record p.world { ext = s } else p.world;
        chunks = p.chunks;
      }

  -- From `do_pwrite` on, with the old size and whether the lock is held.
  unfoldable pub write_at_offset : Bool → ℕ → World S → FileInfo → ℕ → Option (Written S)
  unfolding do_pwrite after_pwrite
  write_at_offset locked old_size w fi size =
      Option.map (after_pwrite locked old_size)
        (do_pwrite api slicing (not locked) w fi size fi.offset)

  -- `do_write`.
  unfoldable pub write : World S → FileInfo → ℤ → ℕ → Option (Written S)
  unfolding write_at_offset check_writable
  write w fi (negsuc n) old_written =
      some (record {
        status = err einval;
        written_bytes = old_written;
        fi = fi;
        world = w;
        chunks = [];
      })
  write w fi (pos zero) old_written =
      some (record { status = ok; written_bytes = old_written; fi = fi; world = w; chunks = [] })
  write w fi (pos (suc n)) old_written =
      let (q, old_size, space_end, s) = api.sys_lock w.ext fi.dentry.inode in
      let refuse : Status → World S → Option (Written S) = λ r w'.
        some
          (record { status = r; written_bytes = old_written; fi = fi; world = w'; chunks = [] }) in
      if not (is_ok (check_writable fi))
      then refuse (check_writable fi) w
      else if use_sys_lock fi
      then (if is_ok q
          then write_at_offset true old_size (record w { ext = s })
              (record fi { offset = old_size }) (suc n)
          else refuse q (record w { ext = s }))
      else write_at_offset false fi.dentry.size w fi (suc n)
