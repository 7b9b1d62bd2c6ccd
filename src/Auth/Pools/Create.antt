-- ===== src/Auth/Pools/Create.antt =====
-- The creation of a storage pool.
use fast_cfs.Base.{ℕ, ◌≡◌, ◌≢◌, none}
use fast_cfs.Auth.Types.{PoolInfo}
use fast_cfs.Auth.Backend.{Backend, Skiplist, IsSkiplist}
use fast_cfs.Auth.Db.{Db, user_spool_get, get_spool_by_name}

module _ {S T : Type 0} (env : Backend S) (sl : Skiplist T) (laws : IsSkiplist sl) (db : Db S T)
    (u : ℕ) (pool : PoolInfo) (no_name : get_spool_by_name sl db pool.name ≡ none)
    (no_pool : user_spool_get sl db u pool.name ≡ none) where
  -- A state in which the pool has its name, its owner and its quota.
  record Named (d : Db S T) (p : ℕ) : Type 0 where
    by_name : d.by_name ≡ db.by_name
    by_id : d.by_id ≡ db.by_id
    users : d.users ≡ db.users
    owner : (d.spools p).owner ≡ u
    same_name : (d.spools p).pool.name ≡ pool.name
    quota : (d.spools p).pool.quota ≡ pool.quota
    others : (q : ℕ) → q ≢ p → d.spools q ≡ db.spools q
