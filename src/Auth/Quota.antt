-- ===== src/Auth/Quota.antt =====
-- src/auth/server/db/auth_db.c: the lookup and the removal of a storage pool, its quota and the
-- bytes that it uses.
pub mod Edit
pub mod Changes
pub mod Mirror
use fast_cfs.Base.{
  ℕ, ℤ, pos, ◌≡◌, Bool, true, false, Option, none, some, List, [], ◌∷◌, Status, ok, err, enoent,
  if◌then◌else◌,
}
use fast_cfs.Auth.Types.{PoolInfo, DbSpool, RowStatus, normal, deleted, is_available}
use fast_cfs.Auth.Backend.{Reply, done, fails, Backend, Skiplist}
use fast_cfs.Auth.Dao.{dao_spool_remove, dao_spool_set_quota}
use fast_cfs.Auth.Db.{Db, user_get, user_spool_get, get_spool_by_name, if_normal}
use fast_cfs.Auth.Pools.{set_pool, call_pool_quota_avail_func, same_ℤ}

module _ {S T : Type 0} (sl : Skiplist T) where
  -- the pool of a user, whatever the user's status
  pub spool_of : Db S T → ℕ → Option ℕ → Option ℕ
  spool_of db poolname none = none
  spool_of db poolname (some user) = user_spool_get sl db user poolname

  pub normal_spool : Db S T → Option ℕ → Option ℕ
  unfolding if_normal
  normal_spool db none = none
  normal_spool db (some p) = if_normal (db.spools p).pool.status p

  unfoldable pub adb_spool_get : Db S T → ℕ → ℕ → Option ℕ
  unfolding spool_of normal_spool
  adb_spool_get db username poolname =
      normal_spool db (spool_of db poolname (user_get sl db username))

  -- It does not look at the status.
  unfoldable pub adb_spool_global_get : Db S T → ℕ → Option ℕ
  adb_spool_global_get db poolname = get_spool_by_name sl db poolname

  pub quota_of : Db S T → Option ℕ → Status × ℤ
  quota_of db none = (err enoent, pos 0)
  quota_of db (some p) = (ok, (db.spools p).pool.quota)

  unfoldable pub adb_spool_get_quota : Db S T → ℕ → Status × ℤ
  unfolding quota_of normal_spool
  adb_spool_get_quota db poolname = quota_of db (normal_spool db (get_spool_by_name sl db poolname))

  pub used_found : Db S T → ℤ → Option ℕ → Status × Db S T
  unfolding set_pool call_pool_quota_avail_func
  used_found db used_bytes none = (err enoent, db)
  used_found db used_bytes (some p) =
      let pool = (db.spools p).pool in
      if same_ℤ pool.used used_bytes then (ok, db) else (
        ok,
        call_pool_quota_avail_func (set_pool db p (record pool { used = used_bytes })) p
            (is_available pool),
      )

  unfoldable pub adb_spool_set_used_bytes : Db S T → ℕ → ℤ → Status × Db S T
  unfolding used_found adb_spool_global_get
  adb_spool_set_used_bytes db poolname used_bytes =
      used_found db used_bytes (adb_spool_global_get db poolname)

module _ {S T : Type 0} (env : Backend S) (sl : Skiplist T) where
  pub remove_done : Db S T → ℕ → Reply Unit × S → Status × Db S T
  unfolding set_pool
  remove_done db p (done u, s) =
      (ok, set_pool (record db { ext = s }) p (record (db.spools p).pool { status = deleted }))
  remove_done db p (fails e, s) = (err e, record db { ext = s })

  pub remove_found : Db S T → Option ℕ → Status × Db S T
  unfolding remove_done dao_spool_remove
  remove_found db none = (err enoent, db)
  remove_found db (some p) = remove_done db p (dao_spool_remove env (db.spools p).pool.id db.ext)

  unfoldable pub adb_spool_remove : Db S T → ℕ → ℕ → Status × Db S T
  unfolding remove_found adb_spool_get
  adb_spool_remove db username poolname = remove_found db (adb_spool_get sl db username poolname)

  pub quota_done : Db S T → ℕ → ℤ → Reply Unit × S → Status × Db S T
  unfolding set_pool call_pool_quota_avail_func
  quota_done db p quota (done u, s) =
      let pool = (db.spools p).pool in
      (
        ok,
        call_pool_quota_avail_func
            (set_pool (record db { ext = s }) p (record pool { quota = quota })) p
            (is_available pool),
      )
  quota_done db p quota (fails e, s) = (err e, record db { ext = s })

  pub quota_found : Db S T → ℤ → Option ℕ → Status × Db S T
  unfolding quota_done dao_spool_set_quota
  quota_found db quota none = (err enoent, db)
  quota_found db quota (some p) =
      let pool = (db.spools p).pool in
      if same_ℤ pool.quota quota
      then (ok, db)
      else quota_done db p quota (dao_spool_set_quota env pool.id quota db.ext)

  unfoldable pub adb_spool_set_quota : Db S T → ℕ → ℕ → ℤ → Status × Db S T
  unfolding quota_found adb_spool_get
  adb_spool_set_quota db username poolname quota =
      quota_found db quota (adb_spool_get sl db username poolname)
