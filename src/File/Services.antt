-- ===== src/File/Services.antt =====
-- The faststore and fastdir calls of the file operations, over a state of the services, and the
-- queue of src/api/async_reporter.h that the reports of a write go to.
use fast_cfs.Base.{
  ℕ, ℤ, ◌+◌, ◌≤◌, ◌<◌, ◌≡◌, Bool, Status, ok, err, enomem, List, [], ◌∷◌, ◌++◌, if◌then◌else◌,
}
use fast_cfs.File.Types.{Dentry, DentrySize, SliceKey}

pub record WriteReply : Type 0 where
  pub status : Status
  pub write_bytes : ℕ
  pub inc_alloc : ℤ

-- `fs_api_slice_write` is given the position of `wbuffer->buff` in the caller's buffer.
-- `lock` and `unlock` are `fcfs_api_dentry_sys_lock` and `_unlock` (the Boolean: with `ns` set).
pub record Services (S : Type 0) : Type 0 where
  pub slice_write : S → SliceKey → ℕ → WriteReply × S
  pub current_time : S → ℕ
  pub alloc_event : S → Bool × S
  pub inode_htable_insert : S → DentrySize → Status × S
  pub set_dentry_size : S → DentrySize → Dentry → Status × Dentry × S
  pub sys_lock : S → ℕ → Status × ℕ × ℕ × S
  pub sys_unlock : S → Bool → ℕ → DentrySize → Status × S

-- What is documented of `fs_api_slice_write`: it writes no more than the slice, and a call that
-- succeeds writes something.
pub record IsWriter {S : Type 0} (api : Services S) : Type 0 where
  pub written_le :
      (s : S) (k : SliceKey) (p : ℕ) → (api.slice_write s k p).0.write_bytes ≤ k.slice_length
  pub written_pos :
      (s : S) (k : SliceKey) (p : ℕ)
      → (api.slice_write s k p).0.status ≡ ok
      → 0 < k.slice_length
      → 0 < (api.slice_write s k p).0.write_bytes

-- `fs_api_slice_read` returns the bytes that it put into the caller's buffer, and `stat` is
-- `fcfs_api_stat_dentry_by_inode_ex`.
pub record Reader (S : Type 0) : Type 0 where
  pub slice_read : S → SliceKey → Status × List ℕ × S
  pub stat : S → ℕ → Status × Dentry × S

-- `fs_api_block_delete`, `fs_api_slice_delete` and `fs_api_slice_allocate`, with the number of
-- bytes that they free or allocate.
pub record Store (S : Type 0) : Type 0 where
  pub block_delete : S → SliceKey → Status × ℤ × S
  pub slice_delete : S → SliceKey → Status × ℤ × S
  pub slice_allocate : S → SliceKey → Status × ℤ × S

pub record World (S : Type 0) : Type 0 where
  pub ext : S
  pub queue : List DentrySize
  pub waiting_count : ℕ

-- the fields of the caller's entry that `report_size_and_time` sets before it queues the report
unfoldable pub update_dentry : ℕ → DentrySize → Dentry → Dentry
update_dentry now d e = record e {
  size = if d.flags.file_size then d.file_size else e.size;
  space_end = if d.flags.space_end then d.file_size else e.space_end;
  mtime = if d.flags.mtime then now else e.mtime;
}

module _ {S : Type 0} (api : Services S) where
  unfoldable pub async_reporter_push : World S → DentrySize → Status × World S
  async_reporter_push w d =
      let (got, s) = api.alloc_event w.ext in
      let (r, s') = api.inode_htable_insert s d in
      if got
      then (
        r,
        record w { ext = s'; queue = w.queue ++ (d ∷ []); waiting_count = w.waiting_count + 1 },
      )
      else (err enomem, record w { ext = s })

  -- `report_size_and_time` with `dentry != NULL`.
  unfoldable pub report_size_and_time :
      World S → Bool → DentrySize → Dentry → Status × Dentry × World S
  unfolding update_dentry async_reporter_push
  report_size_and_time w async d e =
      let e' = update_dentry (api.current_time w.ext) d e in
      let (r, w') = async_reporter_push w d in
      let (q, e'', s) = api.set_dentry_size w.ext d e in
      if async then (r, e', w') else (q, e'', record w { ext = s })
