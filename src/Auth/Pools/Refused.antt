-- ===== src/Auth/Pools/Refused.antt =====
-- A removed pool that is created again, when the directory service refuses.
use fast_cfs.Base.{ℕ, ◌≡◌, true, false, some, Status, err, Errno, refl, ap, ◌∙◌, arith, Memᴰ, head}
use fast_cfs.Auth.Types.{PoolInfo, normal, deleted}
use fast_cfs.Auth.Backend.{Reply, done, fails, Backend, Skiplist}
use fast_cfs.Auth.Dao.{dao_spool_create}
use fast_cfs.Auth.Db.{Db, write-same, set_spool, user_get, user_spool_get}
use fast_cfs.Auth.Pools.{
  set_pool, free_spool, spool_store, spool_fill, storage_pool_create, create_again, create_for,
  create_by, create_found, adb_spool_create,
}

module _ {S T : Type 0} (env : Backend S) (sl : Skiplist T) (db : Db S T) (u p : ℕ)
    (pool : PoolInfo) (e : Errno) where
  -- The object at `p` is freed, and the lists are as they were.
  pub record Dangling (c : Status) (db' : Db S T) : Type 0 where
    pub refused : c ≡ err e
    pub freed : Memᴰ p db'.freed_spools
    pub users : db'.users ≡ db.users
    pub by_name : db'.by_name ≡ db.by_name
    pub by_id : db'.by_id ≡ db.by_id

  store-Dangling :
      (d : Db S T) (x : Reply ℕ × S)
      → d.users ≡ db.users
      → d.by_name ≡ db.by_name
      → d.by_id ≡ db.by_id
      → x.0 ≡ fails e
      → let (c, db') = spool_store env sl d u p pool false x in Dangling c db'
  unfolding spool_store free_spool
  store-Dangling d (done id, s) users by_name by_id h = cc
  store-Dangling d (fails e', s) users by_name by_id h = record {
    refused = cc;
    freed = head refl;
    users = users;
    by_name = by_name;
    by_id = by_id;
  }

  fill-Dangling :
      (dao_spool_create env
          (db.users u).user.name
          (record (db.spools p).pool { quota = pool.quota })
          db.ext).0
        ≡ fails e
      → let (c, db') = spool_fill env sl db u p pool false true in Dangling c db'
  unfolding spool_fill set_pool set_spool
  fill-Dangling refused =
      let info = record (db.spools p).pool { quota = pool.quota } in
      let d = set_pool db p info in
      store-Dangling d (dao_spool_create env (d.users u).user.name (d.spools p).pool d.ext) refl
        refl refl
        (ap (λ sp. (dao_spool_create env (db.users u).user.name sp.pool db.ext).0)
            (write-same db.spools p (record (db.spools p) { pool = info }) p (ground arith))
          ∙ refused)

-- When the directory service refuses to create a removed pool of a normal user again, the pool's
-- object is freed, though its owner's list and the lists of names and ids are as they were, and
-- still find it.
pub adb_spool_create-Dangling :
    {S T : Type 0} (env : Backend S) (sl : Skiplist T) (db : Db S T) (username u p : ℕ)
    (pool : PoolInfo) (e : Errno)
    → user_get sl db username ≡ some u
    → (db.users u).user.status ≡ normal
    → user_spool_get sl db u pool.name ≡ some p
    → (db.spools p).pool.status ≡ deleted
    → (dao_spool_create env
        (db.users u).user.name
        (record (db.spools p).pool { quota = pool.quota })
        db.ext).0
      ≡ fails e
    → let (c, db') = adb_spool_create env sl db username pool in
      Dangling env sl db u p pool e c db' × (user_spool_get sl db' u pool.name ≡ some p)
unfolding adb_spool_create create_found create_by create_for create_again storage_pool_create
adb_spool_create-Dangling env sl db username u p pool e found live listed gone refused =
    rw (found, live, listed, gone)
      (let d = fill-Dangling env sl db u p pool e refused in
        (d, ap (λ us. sl.find (us u).created pool.name) d.users ∙ listed))
