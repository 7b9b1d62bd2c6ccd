-- ===== src/Auth/Quota/Changes.antt =====
-- The changes of a pool that the operations make.
use fast_cfs.Base.{ℕ, ◌≡◌, Bool, true, false, refl, arith}
use fast_cfs.Auth.Types.{PoolInfo, is_available, deleted}
use fast_cfs.Auth.Db.{Db, call_back}
use fast_cfs.Auth.Pools.{set_pool, call_pool_quota_avail_func, same_bool}
use fast_cfs.Auth.Quota.Edit.{Edited, tell}

same_bool_refl : (b : Bool) → same_bool b b ≡ true
same_bool_refl true = refl
same_bool_refl false = refl

module _ {S T : Type 0} where
  pub avail-Edited :
      (db : Db S T) (p : ℕ) (pool : PoolInfo) (s : S)
      → Edited db
          (call_pool_quota_avail_func
            (set_pool (record db { ext = s }) p pool)
            p
            (is_available (db.spools p).pool))
          p
          pool
  unfolding call_pool_quota_avail_func set_pool call_back tell
  avail-Edited db p pool s = record {
    by_name = ground arith;
    by_id = ground arith;
    users = ground arith;
    next = ground arith;
    at = ground arith;
    owner = ground arith;
    others = λ q h. ground arith;
    calls = ground arith;
  }

  pub remove-Edited :
      (db : Db S T) (p : ℕ) (s : S)
      → let pool = record (db.spools p).pool { status = deleted } in
        Edited db (set_pool (record db { ext = s }) p pool) p pool
  unfolding set_pool tell is_available
  remove-Edited db p s = record {
    by_name = refl;
    by_id = refl;
    users = refl;
    next = refl;
    at = ground arith;
    owner = ground arith;
    others = λ q h. ground arith;
    calls = rw (same_bool_refl (is_available (db.spools p).pool));
  }
