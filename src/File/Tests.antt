-- ===== src/File/Tests.antt =====
-- Runs of the file operations, and their theorems at concrete inputs.
use fast_cfs.Base.{
  is_zero, false, ℕ, pos, negsuc, ◌+ℤ◌, ◌≢◌, enoent, ◌+◌, ◌<◌, ◌≤◌, ◌≡◌, true, some, refl, arith,
  Status, map, if◌then◌else◌, ltb, ok, err, eio, ◌∷◌, [], Option, none, List,
}
use fast_cfs.File.Types.{OpenFlags}
use fast_cfs.File.Example.{
  slicing, slicing-IsSlicing, services, services-IsWriter, world, file, content, reader,
  reader-Holds, store, directory_calls,
}
use fast_cfs.File.Services.{report_size_and_time, update_dentry, async_reporter_push}
use fast_cfs.File.Write.{
  write_loop, account, advance, report_flags, Progress, do_pwrite, init_progress, file_report,
  check_writable, check_readable,
}
use fast_cfs.File.Write.Cover.{Covers, do_pwrite-Covers}
use fast_cfs.File.Write.Size.{Grows, file_report_shrinks, do_pwrite-Grows}
use fast_cfs.File.Write.Source.{FirstThree, do_pwrite-FirstThree}
use fast_cfs.File.Read.{SliceRead, do_pread}
use fast_cfs.File.Read.Round.{ReadsAll}
use fast_cfs.File.Read.Content.{do_pread-ReadsAll}
use fast_cfs.File.Truncate.{Walked, Truncated, do_truncate, file_truncate}
use fast_cfs.File.Truncate.Extents.{Went, do_truncate-Went}
use fast_cfs.File.Truncate.Report.{Cut, file_truncate-Cut}
use fast_cfs.File.Truncate.Total.{file_truncate_returns}
use fast_cfs.File.Seek.{lseek, seek_end, lseek_lem}
use fast_cfs.File.Calls.{Written, write}
use fast_cfs.File.Calls.Offset.{WritesFrom, write-WritesFrom}
use fast_cfs.File.Open.{Opened, deal_open_flags}
use fast_cfs.File.Open.Ready.{IsReady, deal_open_flags-IsReady}

-- 20 bytes at 8 take two chunks; 40 bytes at 8 take three, the third from position 8 + 24 = 32
-- of the buffer where its bytes stand at 24.
unfoldable chunks_of : Option (Status × Progress ℕ) → List (ℕ × ℕ × ℕ)
chunks_of none = []
chunks_of (some (r, p)) = map (λ c. (c.offset, c.buff, c.bytes)) p.chunks

three_chunks :
    chunks_of (do_pwrite services slicing true world file 40 8)
    ≡ (8, 0, 8) ∷ (16, 8, 16) ∷ (32, 32, 16) ∷ []
unfolding chunks_of do_pwrite write_loop account advance init_progress file_report report_flags
    report_size_and_time update_dentry async_reporter_push
three_chunks = refl

do_pwrite-Covers_example :
    (p : Progress ℕ) × (do_pwrite services slicing true world file 40 8
      ≡ some (if ltb 0 p.written_bytes then ok else err eio, p))
    × Covers 8 p.chunks (8 + p.written_bytes)
    × (p.written_bytes ≤ 40)
do_pwrite-Covers_example =
    do_pwrite-Covers services slicing slicing-IsSlicing services-IsWriter true world file 40 8
      (omega arith)

do_pwrite-Grows_example :
    (p : Progress ℕ) × (do_pwrite services slicing true world file 40 8
      ≡ some (if ltb 0 p.written_bytes then ok else err eio, p))
    × (0 < p.written_bytes → Grows file.dentry (8 + p.written_bytes) p.fi.dentry)
do_pwrite-Grows_example =
    do_pwrite-Grows services slicing world file 40 8 slicing-IsSlicing services-IsWriter refl
      (omega arith)

do_pwrite-FirstThree_example :
    (p : Progress ℕ) × (do_pwrite services slicing true world file 40 8
      ≡ some (if ltb 0 p.written_bytes then ok else err eio, p))
    × FirstThree 8 p.chunks
do_pwrite-FirstThree_example =
    do_pwrite-FirstThree services slicing true world file 40 8 slicing-IsSlicing services-IsWriter
      (omega arith)

-- Four bytes in a hole at 2 of a file of 10 bytes.
file_report_shrinks_example :
    let e =
      (file_report services world file
        (slicing.set_block_slice 7 2 4)
        (record { status = ok; write_bytes = 4; inc_alloc = pos 4 })).1 in
    (e.size < 10 → (is_zero (pos 4) ≡ false) × (6 < 10) × (6 ≤ file.dentry.space_end))
    × (is_zero (pos 4) ≡ false
        → 6 < 10
        → 6 ≤ file.dentry.space_end
        → (e.size < 10) × (e.size ≡ 6) × (e.space_end ≡ 6) × (e.mtime ≡ file.dentry.mtime))
file_report_shrinks_example =
    file_report_shrinks services world file (slicing.set_block_slice 7 2 4)
      (record { status = ok; write_bytes = 4; inc_alloc = pos 4 }) refl

do_pread-ReadsAll_example :
    (d : SliceRead ℕ) × (do_pread reader slicing file 100 (pos 20) 3 ≡ some d)
    × ReadsAll reader content 10 20 3 d
unfolding check_readable
do_pread-ReadsAll_example =
    do_pread-ReadsAll reader content 10 slicing file 100 20 3 slicing-IsSlicing reader-Holds refl
      refl

do_truncate-Went_example :
    (w : Walked ℕ) × (do_truncate store slicing 7 40 8 50 100 ≡ some w) × Went 8 40 w
do_truncate-Went_example =
    do_truncate-Went store slicing slicing-IsSlicing 7 40 8 50 100 (omega arith)

file_truncate-Cut_example :
    (t : Truncated ℕ) × (file_truncate services reader store slicing file.ctx world 7 (pos 4)
      ≡ some t)
    × (t.status ≡ ok → Cut [] 7 4 10 10 t)
file_truncate-Cut_example =
    file_truncate-Cut services reader store slicing file.ctx world 7 4 slicing-IsSlicing refl refl

file_truncate_returns_example :
    (t : Truncated ℕ) × (file_truncate services reader store slicing file.ctx world 7 (pos 4)
      ≡ some t)
file_truncate_returns_example =
    file_truncate_returns services reader store slicing file.ctx world 7 (pos 4) slicing-IsSlicing

-- From 3 before the end, that is to 7.
lseek_lem_example :
    let (r, fi', s') = lseek reader file 100 (negsuc 2) seek_end in
    (r ≡ ok → pos fi'.offset ≡ pos 10 +ℤ negsuc 2) × (r ≢ ok → fi'.offset ≡ 0)
lseek_lem_example = lseek_lem reader file 100 (negsuc 2) seek_end

write-WritesFrom_example :
    (r : Written ℕ) × (write services slicing world file (pos 40) 0 ≡ some r) × WritesFrom 40 0 r
unfolding check_writable
write-WritesFrom_example =
    write-WritesFrom services slicing world file 39 0 slicing-IsSlicing services-IsWriter refl
      (λ locked. absurd (ground arith))

-- The path does not exist, and is created exclusively.
abbrev create_flags : OpenFlags
create_flags = record file.flags { creat = true; excl = true }

deal_open_flags-IsReady_example :
    (o : Opened ℕ) × (deal_open_flags services reader store slicing directory_calls
        (record file { flags = create_flags })
        world
        (err enoent)
      ≡ some o)
    × (o.status ≡ ok
        → IsReady create_flags o.fi × (true ≡ true → true ≡ true → err enoent ≡ err enoent))
deal_open_flags-IsReady_example =
    deal_open_flags-IsReady services reader store slicing directory_calls
      (record file { flags = create_flags }) world (err enoent) slicing-IsSlicing refl
