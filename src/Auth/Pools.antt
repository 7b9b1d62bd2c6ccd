-- ===== src/Auth/Pools.antt =====
-- src/auth/server/db/auth_db.c: the operations on the storage pools.
pub mod Link
pub mod Create
pub mod Refused
use fast_cfs.Base.{
  ℕ, suc, ◌+◌, ℤ, pos, negsuc, ◌≡◌, Bool, true, false, Option, none, some, List, [], ◌∷◌, Status,
  ok, err, enomem, eexist, enoent, is_ok, if◌then◌else◌, ◌==◌,
}
use fast_cfs.Auth.Types.{
  DbUser, DbSpool, PoolInfo, RowStatus, normal, deleted, is_available, pool_quota_avail_changed,
}
use fast_cfs.Auth.Backend.{Reply, done, fails, Backend, Skiplist}
use fast_cfs.Auth.Dao.{dao_spool_create, dao_spool_remove, dao_spool_set_quota}
use fast_cfs.Auth.Db.{
  Db, set_user, set_spool, call_back, user_get, user_spool_get, get_spool_by_name, if_normal,
}

abbrev pub same_ℤ : ℤ → ℤ → Bool
same_ℤ (pos a) (pos b) = a == b
same_ℤ (pos a) (negsuc b) = false
same_ℤ (negsuc a) (pos b) = false
same_ℤ (negsuc a) (negsuc b) = a == b

abbrev pub same_bool : Bool → Bool → Bool
same_bool true b = b
same_bool false true = false
same_bool false false = true

module _ {S T : Type 0} where
  unfoldable pub set_pool : Db S T → ℕ → PoolInfo → Db S T
  unfolding set_spool
  set_pool db p pool = set_spool db p (record (db.spools p) { pool = pool })

  -- The name string and the object go back to their allocators.
  unfoldable pub free_spool : Db S T → ℕ → Db S T
  free_spool db p = record db { freed_spools = p ∷ db.freed_spools }

  unfoldable pub call_pool_quota_avail_func : Db S T → ℕ → Bool → Db S T
  unfolding call_back
  call_pool_quota_avail_func db p old_avail =
      let new_avail = is_available (db.spools p).pool in
      if same_bool new_avail old_avail
      then db
      else call_back db (pool_quota_avail_changed (db.spools p).pool.id new_avail)

module _ {S T : Type 0} (env : Backend S) (sl : Skiplist T) where
  pub insert_by_name : Db S T → ℕ → Status × T → Status × Db S T
  insert_by_name db p (ok, t) =
      let (r, t') = sl.insert db.by_name (db.spools p).pool.name p in
      (r, record db { by_id = t; by_name = t' })
  insert_by_name db p (err e, t) = (err e, record db { by_id = t })

  unfoldable pub spool_global_skiplists_insert : Db S T → ℕ → Status × Db S T
  unfolding insert_by_name
  spool_global_skiplists_insert db p =
      insert_by_name db p (sl.insert db.by_id (db.spools p).pool.id p)

  pub insert_created : ℕ → ℕ → Status × Db S T → Status × Db S T
  unfolding set_user
  insert_created dbuser p (ok, db) =
      let (r, t) = sl.insert (db.users dbuser).created (db.spools p).pool.name p in
      (r, set_user db dbuser (record (db.users dbuser) { created = t }))
  insert_created dbuser p (err e, db) = (err e, db)

  -- the end of `storage_pool_create`, with the roll-back of a pool that could not be linked
  pub spool_finish : ℕ → Status × Db S T → Status × Db S T
  unfolding free_spool dao_spool_remove
  spool_finish p (ok, db) = (ok, db)
  spool_finish p (err e, db) =
      let (r, s) = dao_spool_remove env (db.spools p).pool.id db.ext in
      (err e, free_spool (record db { ext = s }) p)

  pub spool_link : Db S T → ℕ → ℕ → PoolInfo → Bool → Status × Db S T
  unfolding set_pool insert_created spool_global_skiplists_insert
  spool_link db dbuser p pool need_insert =
      let db' = set_pool db p (record (db.spools p).pool { status = pool.status }) in
      if need_insert
      then insert_created dbuser p (spool_global_skiplists_insert db' p)
      else (ok, db')

  pub spool_store : Db S T → ℕ → ℕ → PoolInfo → Bool → Reply ℕ × S → Status × Db S T
  unfolding spool_link spool_finish set_pool free_spool
  spool_store db dbuser p pool need_insert (done id, s) = spool_finish p (
      spool_link (set_pool (record db { ext = s }) p (record (db.spools p).pool { id = id })) dbuser
        p pool need_insert)
  spool_store db dbuser p pool need_insert (fails e, s) =
      (err e, free_spool (record db { ext = s }) p)

  pub spool_fill : Db S T → ℕ → ℕ → PoolInfo → Bool → Bool → Status × Db S T
  unfolding spool_store set_pool dao_spool_create
  spool_fill db dbuser p pool need_insert addto_backend =
      let db' = set_pool db p (record (db.spools p).pool { quota = pool.quota }) in
      spool_store db' dbuser p pool need_insert (
        if addto_backend
        then dao_spool_create env (db'.users dbuser).user.name (db'.spools p).pool db'.ext
        else (done pool.id, db'.ext))

  -- The allocated object, cleared but for its name and its owner; one that was used before keeps
  -- its old number of bytes used, which this leaves out.
  unfoldable new_spool : ℕ → ℕ → DbSpool
  new_spool dbuser name = record {
    pool = record { id = 0; name = name; quota = pos 0; used = pos 0; status = normal };
    owner = dbuser;
  }

  pub spool_named : Db S T → ℕ → PoolInfo → Bool → Reply (Option ℕ) × S → Status × Db S T
  unfolding spool_fill set_spool new_spool
  spool_named db dbuser pool addto_backend (done str, s) =
      let p = db.next_spool in
      spool_fill
        (set_spool (record db { ext = s; next_spool = suc p }) p (new_spool dbuser pool.name))
        dbuser p pool true addto_backend
  spool_named db dbuser pool addto_backend (fails e, s) = (err e, record db { ext = s })

  pub spool_alloc : Db S T → ℕ → PoolInfo → Bool → Bool × S → Status × Db S T
  unfolding spool_named
  spool_alloc db dbuser pool addto_backend (true, s) =
      spool_named db dbuser pool addto_backend (env.alloc_string (some pool.name) s)
  spool_alloc db dbuser pool addto_backend (false, s) = (err enomem, record db { ext = s })

  unfoldable pub storage_pool_create : Db S T → ℕ → Option ℕ → PoolInfo → Bool → Status × Db S T
  unfolding spool_alloc spool_fill
  storage_pool_create db dbuser none pool addto_backend =
      spool_alloc db dbuser pool addto_backend (env.alloc_object db.ext)
  storage_pool_create db dbuser (some p) pool addto_backend =
      spool_fill db dbuser p pool false addto_backend

  -- the branches of `adb_spool_create` on a pool of the user's, and on one of that name
  pub create_again : Db S T → ℕ → ℕ → PoolInfo → RowStatus → Status × Db S T
  unfolding storage_pool_create
  create_again db dbuser p pool normal = (err eexist, db)
  create_again db dbuser p pool deleted = storage_pool_create db dbuser (some p) pool true

  pub create_new : Db S T → ℕ → PoolInfo → Option ℕ → Status × Db S T
  unfolding storage_pool_create
  create_new db dbuser pool (some q) = (err eexist, db)
  create_new db dbuser pool none = storage_pool_create db dbuser none pool true

  pub create_for : Db S T → ℕ → PoolInfo → Option ℕ → Status × Db S T
  unfolding create_again create_new
  create_for db dbuser pool (some p) = create_again db dbuser p pool (db.spools p).pool.status
  create_for db dbuser pool none = create_new db dbuser pool (get_spool_by_name sl db pool.name)

  pub create_by : Db S T → PoolInfo → ℕ → RowStatus → Status × Db S T
  unfolding create_for
  create_by db pool dbuser normal =
      create_for db dbuser pool (user_spool_get sl db dbuser pool.name)
  create_by db pool dbuser deleted = (err enoent, db)

  pub create_found : Db S T → PoolInfo → Option ℕ → Status × Db S T
  unfolding create_by
  create_found db pool none = (err enoent, db)
  create_found db pool (some dbuser) = create_by db pool dbuser (db.users dbuser).user.status

  unfoldable pub adb_spool_create : Db S T → ℕ → PoolInfo → Status × Db S T
  unfolding create_found
  adb_spool_create db username pool = create_found db pool (user_get sl db username)
