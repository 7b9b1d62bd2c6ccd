-- ===== src/File/Example.antt =====
-- Concrete services and files, at which the theorems on file operations are applied.
use fast_cfs.Base.{
  [], refl, ◌≡◌, if◌then◌else◌, ltb, err, enoent, length, ap, sym, ℕ, suc, ◌+◌, ◌-◌, ◌*◌, ◌/◌, ◌%◌,
  pos, true, false, ok, arith, min,
}
use fast_cfs.File.Types.{SliceKey, Slicing, IsSlicing, FileInfo, regular, start}
use fast_cfs.File.Services.{Services, IsWriter, World, Reader, Store}
use fast_cfs.File.Read.Window.{window, length-window}
use fast_cfs.File.Read.Hole.{Holds}
use fast_cfs.File.Open.{Directory}

-- Blocks of 16 bytes.
abbrev pub slicing : Slicing
slicing = record {
  block_size = 16;
  set_block_slice = λ oid offset size. record {
    oid = oid;
    block_offset = offset / 16 * 16;
    slice_offset = offset % 16;
    slice_length = min size (16 - offset % 16);
  };
  next_block_slice_key = λ k remain. record {
    oid = k.oid;
    block_offset = k.block_offset + 16;
    slice_offset = 0;
    slice_length = min remain 16;
  };
  set_slice_size = λ k offset remain. record {
    oid = k.oid;
    block_offset = k.block_offset;
    slice_offset = offset - k.block_offset;
    slice_length = min remain (16 - (offset - k.block_offset));
  };
}

pub slicing-IsSlicing : IsSlicing slicing
slicing-IsSlicing = record {
  set_fits = λ oid offset size lt. omega arith;
  next_fits = λ k remain e lt. omega arith;
  size_fits = λ k offset remain le lt p. omega arith;
  set_oid = λ oid offset size. refl;
  next_oid = λ k remain. refl;
}

-- Every slice is written whole and allocates nothing; the state is the time.
abbrev pub services : Services ℕ
services = record {
  slice_write =
      λ s k p. (record { status = ok; write_bytes = k.slice_length; inc_alloc = pos 0 }, suc s);
  current_time = λ s. s;
  alloc_event = λ s. (true, s);
  inode_htable_insert = λ s d. (ok, s);
  set_dentry_size = λ s d e. (ok, e, s);
  sys_lock = λ s inode. (ok, 0, 0, s);
  sys_unlock = λ s ns size d. (ok, s);
}

pub services-IsWriter : IsWriter services
services-IsWriter = record { written_le = λ s k p. omega arith; written_pos = λ s k p e lt. lt }

abbrev pub world : World ℕ
world = record { ext = 100; queue = []; waiting_count = 0 }

-- A regular file of 10 bytes, open for reading and writing, with queued reports.
abbrev pub file : FileInfo
file = record {
  ctx = record { async_report = true; use_sys_lock_for_append = false };
  magic = 1588076578;
  flags = record {
    wronly = false;
    rdwr = true;
    creat = false;
    excl = false;
    trunc = false;
    append = false;
    nofollow = false;
  };
  dentry = record { inode = 7; mode = regular; size = 10; space_end = 10; mtime = 1 };
  offset = 0;
  last_modified_time = 1;
}

-- The 10 bytes of the file: 1 to 6, and a hole.
abbrev pub content : ℕ → ℕ
content i = if ltb i 6 then i + 1 else 0

abbrev pub reader : Reader ℕ
reader = record {
  slice_read = λ s k. (ok, window content (start k) (min k.slice_length (6 - start k)), suc s);
  stat = λ s oid. (ok, file.dentry, suc s);
}

length-slice_read :
    (s : ℕ) (k : SliceKey) → length (reader.slice_read s k).1 ≡ min k.slice_length (6 - start k)
length-slice_read s k = length-window content (start k) (min k.slice_length (6 - start k))

pub reader-Holds : Holds ℕ reader 7 content 10
reader-Holds = record {
  bytes_le = λ s k e. omega (arith, length-slice_read s k);
  bytes_eq = λ s k e. ap (window content (start k)) (sym (length-slice_read s k));
  bytes_end = λ s k e lt. omega (arith, length-slice_read s k);
  holes = λ s k i e le lt. ground (arith, length-slice_read s k);
  stat_size = λ s e. refl;
}

-- A store that frees and allocates whole slices.
abbrev pub store : Store ℕ
store = record {
  block_delete = λ s k. (ok, pos k.slice_length, suc s);
  slice_delete = λ s k. (ok, pos k.slice_length, suc s);
  slice_allocate = λ s k. (ok, pos k.slice_length, suc s);
}

-- The path has no entry, and creating it gives an empty one.
abbrev pub directory_calls : Directory ℕ
directory_calls = record {
  create_dentry = λ s. (ok, record file.dentry { size = 0; space_end = 0 }, suc s);
  access_dentry = λ s. (err enoent, file.dentry, suc s);
}
