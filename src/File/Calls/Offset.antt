-- ===== src/File/Calls/Offset.antt =====
-- Where `fcfs_api_write_ex` writes and where it leaves the file's offset.
use fast_cfs.Base.{
  ℕ, suc, pos, ◌+◌, ◌≤◌, ◌<◌, ◌≡◌, ◌≢◌, ◌⊎◌, inl, inr, refl, ◌∙◌, Bool, true, false, not, some, ok,
  err, eio, Bool-cases, arith, if◌then◌else◌, ltb,
}
use fast_cfs.File.Types.{FileInfo, Slicing, IsSlicing}
use fast_cfs.File.Services.{Services, IsWriter, WriteReply, World}
use fast_cfs.File.Write.{Progress, account, advance, init_progress, check_writable}
use fast_cfs.File.Write.Cover.{Covers, do_pwrite-Stored}
use fast_cfs.File.Calls.{Written, use_sys_lock, after_pwrite, write_at_offset, write}

-- A write of `size` bytes that stores its bytes from `from` on, in order and with no gap.
pub record WritesFrom {S : Type 0} (size from : ℕ) (r : Written S) : Type 0 where
  pub cover : Covers from r.chunks (from + r.written_bytes)
  pub moves : r.status ≡ ok → (r.fi.offset ≡ from + r.written_bytes) × (0 < r.written_bytes)
  pub within : r.written_bytes ≤ size
  pub fails : r.status ≢ ok → (r.fi.offset ≡ from) × (r.written_bytes ≡ 0)

module _ {S : Type 0} (api : Services S) (slicing : Slicing) where
  account-offset :
      (need : Bool) (r : WriteReply) (p : Progress S)
      → (account api need r p).fi.offset ≡ p.fi.offset
  unfolding account
  account-offset need r p = ground arith

  advance-offset :
      (r : WriteReply) (remain : ℕ) (p : Progress S)
      → (advance slicing remain r p).fi.offset ≡ p.fi.offset
  unfolding advance
  advance-offset r remain p = refl

  either : (n : ℕ) (p : Progress S) → (p.fi.offset ≡ n) ⊎ (p.fi.offset ≡ n) → p.fi.offset ≡ n
  either n p (inl e) = e
  either n p (inr e) = e

  after_pwrite-WritesFrom :
      (locked : Bool) (old_size size from : ℕ) (p : Progress S)
      → p.written_bytes ≤ size
      → Covers from p.chunks (from + p.written_bytes)
      → p.fi.offset ≡ from
      → WritesFrom size from (
          after_pwrite api slicing locked old_size
            (if ltb 0 p.written_bytes then ok else err eio, p))
  unfolding after_pwrite
  after_pwrite-WritesFrom locked old_size size from p le cover at = record {
    cover = cover;
    moves = λ e. ground arith;
    within = le;
    fails = λ e. ground arith;
  }

  write_at_offset-WritesFrom :
      (locked : Bool) (old_size : ℕ) (w : World S) (fi : FileInfo) (size : ℕ)
      → IsSlicing slicing
      → IsWriter api
      → 0 < size
      → (r : Written S) × (write_at_offset api slicing locked old_size w fi size ≡ some r)
        × WritesFrom size fi.offset r
  unfolding write_at_offset init_progress
  write_at_offset-WritesFrom locked old_size w fi size laws wr lt =
      let (p, e, st, kept) =
        do_pwrite-Stored api slicing laws wr (not locked) (λ p. p.fi.offset ≡ fi.offset)
          (λ p. p.fi.offset ≡ fi.offset) (λ p x h. h)
          (λ r p at le more h. account-offset (not locked) r p ∙ h)
          (λ r remain p h. advance-offset r remain p ∙ h) w fi size fi.offset lt refl in
      (
        after_pwrite api slicing locked old_size (if ltb 0 p.written_bytes then ok else err eio, p),
        rw (e, write_at_offset),
        after_pwrite-WritesFrom locked old_size size fi.offset p st.within st.cover
            (either fi.offset p kept),
      )

  -- With slices as `IsSlicing` says and a store as `IsWriter` says, a `write` of at least one byte
  -- to a file that is open for writing, whose lock is granted where one is taken, ends. It stores
  -- its bytes, in order and with no gap, from the file's offset on, or from the old size that came
  -- with the lock for an append under the lock.
  -- If it succeeds it has written something and moved the offset by that much; if it fails it has
  -- written nothing and the offset is where it began.
  pub write-WritesFrom :
      (w : World S) (fi : FileInfo) (n old_written : ℕ)
      → IsSlicing slicing
      → IsWriter api
      → check_writable fi ≡ ok
      → let (q, old_size, space_end, s) = api.sys_lock w.ext fi.dentry.inode in
        (use_sys_lock api slicing fi ≡ true → q ≡ ok)
        → (r : Written S) × (write api slicing w fi (pos (suc n)) old_written ≡ some r)
          × WritesFrom (suc n) (if use_sys_lock api slicing fi then old_size else fi.offset) r
  unfolding write
  write-WritesFrom w fi n old_written laws wr open_ granted =
      elim (Bool-cases (use_sys_lock api slicing fi)) [
        | inl locks ↦
            let (r, e, post) =
              write_at_offset-WritesFrom true old_size (record w { ext = s })
                (record fi { offset = old_size }) (suc n) laws wr (omega arith) in
            (r, rw (open_, locks, granted locks) e, rw locks post)
        | inr free ↦
            let (r, e, post) =
              write_at_offset-WritesFrom false fi.dentry.size w fi (suc n) laws wr (omega arith) in
            (r, rw (open_, free) e, rw free post)
      ]
    where
      old_size : ℕ
      old_size = (api.sys_lock w.ext fi.dentry.inode).1

      s : S
      s = (api.sys_lock w.ext fi.dentry.inode).3
