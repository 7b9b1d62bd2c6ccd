-- ===== src/Auth/Types.antt =====
-- src/auth/common/auth_types.h and src/auth/server/db/auth_db.h: the rows of the users, the storage
-- pools and the granted pools, and the callbacks that tell of a change.
use fast_cfs.Base.{ℕ, ◌/◌, ◌%◌, ◌^◌, ℤ, pos, negsuc, ltb_ℤ, Bool, true, false, ◌||◌, Option, ◌==◌}

-- `FCFS_AUTH_USER_STATUS_*` and `FCFS_AUTH_POOL_STATUS_*`
pub data RowStatus : Type 0 where
  normal deleted : RowStatus

abbrev pub is_normal : RowStatus → Bool
is_normal normal = true
is_normal deleted = false

-- `FCFSAuthUserInfo`. A name is its rank in the order of `fc_string_compare`; the password is
-- `none` while its pointer is NULL.
pub record UserInfo : Type 0 where
  pub id : ℕ
  pub name : ℕ
  pub passwd : Option ℕ
  pub priv : ℕ
  pub status : RowStatus

-- `FCFSAuthSPoolPriviledges`
pub record Privileges : Type 0 where
  pub fdir : ℕ
  pub fstore : ℕ

-- `FCFSAuthStoragePoolInfo`
pub record PoolInfo : Type 0 where
  pub id : ℕ
  pub name : ℕ
  pub quota : ℤ
  pub used : ℤ
  pub status : RowStatus

-- `FCFSAuthGrantedPoolInfo`
pub record GrantedInfo : Type 0 where
  pub id : ℕ
  pub pool_id : ℕ
  pub privs : Privileges

-- `FCFS_AUTH_POOL_ACCESS_*`
abbrev pub access_none : Privileges
access_none = record { fdir = 0; fstore = 0 }

abbrev pub access_all : Privileges
access_all = record { fdir = 6; fstore = 6 }

abbrev pub unlimited : ℤ
unlimited = negsuc 0

abbrev pub is_unlimited : ℤ → Bool
is_unlimited (pos n) = false
is_unlimited (negsuc n) = n == 0

-- `FCFS_AUTH_POOL_AVAILABLE`
unfoldable pub is_available : PoolInfo → Bool
is_available pool = is_unlimited pool.quota || ltb_ℤ pool.used pool.quota

-- `priv & (1 << k)`, for the privileges of one bit
abbrev pub has_bit : ℕ → ℕ → Bool
has_bit priv k = priv / 2 ^ k % 2 == 1

-- `DBUserInfo`, with its skiplists of pools
pub record DbUser (T : Type 0) : Type 0 where
  pub user : UserInfo
  pub created : T
  pub granted : T

-- `DBStoragePoolInfo`
pub record DbSpool : Type 0 where
  pub pool : PoolInfo
  pub owner : ℕ

-- `DBGrantedPoolInfo`
pub record DbGranted : Type 0 where
  pub granted : GrantedInfo
  pub sp : ℕ

-- A call of `DBPrivChangeCallbacks`, with its arguments.
pub data Callback : Type 0 where
  user_priv_changed : ℕ → ℕ → Callback
  pool_priv_changed : ℕ → ℕ → Privileges → Callback
  pool_quota_avail_changed : ℕ → Bool → Callback
