-- ===== src/File/Types.antt =====
-- The data of src/api/fcfs_api_file.h that the file operations read and write, and what they take
-- from the faststore and fastdir clients.
use fast_cfs.Base.{ℕ, ℤ, ◌+◌, ◌≤◌, ◌<◌, ◌≡◌, Bool}

-- `S_ISDIR`, `S_ISREG` and `S_ISLNK` of `stat.mode`
pub data Mode : Type 0 where
  directory regular symlink special : Mode

-- The part of `FDIRDEntryInfo` that the file operations use.
pub record Dentry : Type 0 where
  pub inode : ℕ
  pub mode : Mode
  pub size : ℕ
  pub space_end : ℕ
  pub mtime : ℕ

-- The bits of `flags` in `open(2)`.
pub record OpenFlags : Type 0 where
  pub wronly : Bool
  pub rdwr : Bool
  pub creat : Bool
  pub excl : Bool
  pub trunc : Bool
  pub append : Bool
  pub nofollow : Bool

-- The switches of `FCFSAPIContext`.
pub record Context : Type 0 where
  pub async_report : Bool
  pub use_sys_lock_for_append : Bool

pub record FileInfo : Type 0 where
  pub ctx : Context
  pub magic : ℕ
  pub flags : OpenFlags
  pub dentry : Dentry
  pub offset : ℕ
  pub last_modified_time : ℕ

-- The FDIR_DENTRY_FIELD_MODIFIED_FLAG_ bits.
pub record Modified : Type 0 where
  pub file_size : Bool
  pub space_end : Bool
  pub inc_alloc : Bool
  pub mtime : Bool

pub record DentrySize : Type 0 where
  pub inode : ℕ
  pub file_size : ℕ
  pub inc_alloc : ℤ
  pub force : Bool
  pub flags : Modified

-- `FSBlockSliceKeyInfo`: a block, and a slice of it.
pub record SliceKey : Type 0 where
  pub oid : ℕ
  pub block_offset : ℕ
  pub slice_offset : ℕ
  pub slice_length : ℕ

-- the position in the file at which the slice begins
abbrev pub start : SliceKey → ℕ
start k = k.block_offset + k.slice_offset

-- faststore's arithmetic on slice keys. `block_size` is FS_FILE_BLOCK_SIZE.
pub record Slicing : Type 0 where
  pub block_size : ℕ
  pub set_block_slice : ℕ → ℕ → ℕ → SliceKey
  pub next_block_slice_key : SliceKey → ℕ → SliceKey
  pub set_slice_size : SliceKey → ℕ → ℕ → SliceKey

-- The key is the first slice of the `remain` bytes from `position` on: it begins there, stays in
-- its block, and goes to the end of the block unless the bytes end before.
pub record Fits (block_size : ℕ) (k : SliceKey) (position remain : ℕ) : Type 0 where
  pub begins : start k ≡ position
  pub nonempty : 0 < k.slice_length
  pub within : k.slice_length ≤ remain
  pub in_block : k.slice_offset + k.slice_length ≤ block_size
  pub whole : k.slice_length < remain → k.slice_offset + k.slice_length ≡ block_size

-- What is documented of the arithmetic.
pub record IsSlicing (s : Slicing) : Type 0 where
  pub set_fits :
      (oid offset size : ℕ)
      → 0 < size
      → Fits s.block_size (s.set_block_slice oid offset size) offset size
  pub next_fits :
      (k : SliceKey) (remain : ℕ)
      → k.slice_offset + k.slice_length ≡ s.block_size
      → 0 < remain
      → Fits s.block_size (s.next_block_slice_key k remain) (start k + k.slice_length) remain
  pub size_fits :
      (k : SliceKey) (offset remain : ℕ)
      → k.block_offset ≤ offset
      → offset < k.block_offset + s.block_size
      → 0 < remain
      → Fits s.block_size (s.set_slice_size k offset remain) offset remain
  pub set_oid : (oid offset size : ℕ) → (s.set_block_slice oid offset size).oid ≡ oid
  pub next_oid : (k : SliceKey) (remain : ℕ) → (s.next_block_slice_key k remain).oid ≡ k.oid
