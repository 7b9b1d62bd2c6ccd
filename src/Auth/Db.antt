-- ===== src/Auth/Db.antt =====
-- src/auth/server/db/auth_db.c: the context `adb_ctx`, with its objects by pointer and the
-- skiplists that search them. A call runs alone.
use fast_cfs.Base.{true, false, ℕ, ℤ, ◌≡◌, Option, none, some, List, ◌∷◌, if◌then◌else◌, ◌==◌}
use fast_cfs.Auth.Types.{DbUser, DbSpool, DbGranted, Callback, UserInfo, RowStatus, normal, deleted}
use fast_cfs.Auth.Backend.{Skiplist}

-- `S` is the state of the services, `T` the type of a skiplist; `calls` are the callbacks so far,
-- the newest first.
pub record Db (S T : Type 0) : Type 0 where
  pub ext : S
  pub users : ℕ → DbUser T
  pub next_user : ℕ
  pub user_list : T
  pub count : ℤ
  pub spools : ℕ → DbSpool
  pub next_spool : ℕ
  pub freed_spools : List ℕ
  pub by_id : T
  pub by_name : T
  pub grants : ℕ → DbGranted
  pub next_grant : ℕ
  pub freed_grants : List ℕ
  pub auto_id : ℕ
  pub calls : List Callback

-- A write to one object.
unfoldable pub write {ℓ} : {A : Type ℓ} → (ℕ → A) → ℕ → A → ℕ → A
write h p a q = if q == p then a else h q

module _ {ℓ} {A : Type ℓ} (h : ℕ → A) (p : ℕ) (a : A) (q : ℕ) where
  pub write-same : (q == p) ≡ true → write h p a q ≡ a
  unfolding write
  write-same e = rw e

  pub write-other : (q == p) ≡ false → write h p a q ≡ h q
  unfolding write
  write-other e = rw e

module _ {S T : Type 0} where
  unfoldable pub set_user : Db S T → ℕ → DbUser T → Db S T
  unfolding write
  set_user db p u = record db { users = write db.users p u }

  unfoldable pub set_info : Db S T → ℕ → UserInfo → Db S T
  unfolding set_user
  set_info db p u = set_user db p (record (db.users p) { user = u })

  unfoldable pub set_spool : Db S T → ℕ → DbSpool → Db S T
  unfolding write
  set_spool db p sp = record db { spools = write db.spools p sp }

  unfoldable pub set_grant : Db S T → ℕ → DbGranted → Db S T
  unfolding write
  set_grant db p g = record db { grants = write db.grants p g }

  unfoldable pub call_back : Db S T → Callback → Db S T
  call_back db c = record db { calls = c ∷ db.calls }

  module _ (sl : Skiplist T) where
    abbrev pub user_get : Db S T → ℕ → Option ℕ
    user_get db name = sl.find db.user_list name

    abbrev pub get_spool_by_id : Db S T → ℕ → Option ℕ
    get_spool_by_id db pool_id = sl.find db.by_id pool_id

    abbrev pub get_spool_by_name : Db S T → ℕ → Option ℕ
    get_spool_by_name db name = sl.find db.by_name name

    abbrev pub user_spool_get : Db S T → ℕ → ℕ → Option ℕ
    user_spool_get db user name = sl.find (db.users user).created name

    abbrev pub granted_pool_get : Db S T → ℕ → ℕ → Option ℕ
    granted_pool_get db user pool_id = sl.find (db.users user).granted pool_id

-- The test `user != NULL && user->user.status == FCFS_AUTH_USER_STATUS_NORMAL`
unfoldable pub if_normal : RowStatus → ℕ → Option ℕ
if_normal normal p = some p
if_normal deleted p = none
