-- ===== src/Auth/Quota/Mirror.antt =====
-- The availability of the pools, as the callbacks tell it.
use fast_cfs.Base.{
  ℕ, ℤ, ◌≡◌, Bool, Option, none, some, Status, List, [], ◌∷◌, refl, Bool-cases, inl, inr,
}
use fast_cfs.Auth.Types.{PoolInfo, RowStatus, normal, deleted}
use fast_cfs.Auth.Backend.{Reply, done, fails, Backend, Skiplist}
use fast_cfs.Auth.Dao.{dao_spool_set_quota, dao_spool_remove}
use fast_cfs.Auth.Db.{Db, user_get, user_spool_get, get_spool_by_name, if_normal}
use fast_cfs.Auth.Pools.{same_ℤ}
use fast_cfs.Auth.Quota.{
  adb_spool_set_quota, adb_spool_set_used_bytes, adb_spool_remove, adb_spool_get, spool_of,
  normal_spool, used_found, quota_found, quota_done, remove_found, remove_done,
  adb_spool_global_get,
}
use fast_cfs.Auth.Quota.Edit.{PoolInv, Mirrors, Edited, edit-PoolInv, edit-Mirrors}
use fast_cfs.Auth.Quota.Changes.{avail-Edited, remove-Edited}

-- The calls that change the availability of a pool, and the removal.
pub data PoolCall : Type 0 where
  set_quota : ℕ → ℕ → ℤ → PoolCall
  set_used_bytes : ℕ → ℤ → PoolCall
  remove : ℕ → ℕ → PoolCall

module _ {S T : Type 0} (env : Backend S) (sl : Skiplist T) where
  unfoldable pub run : PoolCall → Db S T → Status × Db S T
  unfolding adb_spool_set_quota adb_spool_set_used_bytes adb_spool_remove
  run (set_quota username poolname quota) db = adb_spool_set_quota env sl db username poolname quota
  run (set_used_bytes poolname bytes) db = adb_spool_set_used_bytes sl db poolname bytes
  run (remove username poolname) db = adb_spool_remove env sl db username poolname

  unfoldable pub runs : List PoolCall → Db S T → Db S T
  unfolding run
  runs [] db = db
  runs (c ∷ cs) db = runs cs (run c db).1

-- Each list finds a pool by its key, and its availability is what was told last.
pub record Told {S T : Type 0} (sl : Skiplist T) (first : ℕ → Bool) (db : Db S T) : Type 0 where
  pub inv : PoolInv sl db
  pub mirrors : Mirrors sl first db

module _ {S T : Type 0} (env : Backend S) (sl : Skiplist T) (first : ℕ → Bool) (db : Db S T)
    (v : Told sl first db) where
  edit-Told :
      (db' : Db S T) (p n : ℕ) (pool : PoolInfo)
      → get_spool_by_name sl db n ≡ some p
      → pool.name ≡ (db.spools p).pool.name
      → pool.id ≡ (db.spools p).pool.id
      → Edited db db' p pool
      → Told sl first db'
  edit-Told db' p n pool linked same_name same_id e = record {
    inv = edit-PoolInv sl db db' p pool e same_name same_id v.inv;
    mirrors = edit-Mirrors sl db db' p pool e same_name same_id v.inv first n linked v.mirrors;
  }

  ext-Told : (s : S) → Told sl first (record db { ext = s })
  ext-Told s =
      let inv = v.inv in
      record {
        inv = record {
          named = inv.named;
          below = inv.below;
          ids = inv.ids;
          listed = inv.listed;
          owned = inv.owned;
        };
        mirrors = v.mirrors;
      }

  spool-Told :
      (poolname p : ℕ) (status : RowStatus) (k : Option ℕ → Status × Db S T)
      → get_spool_by_name sl db poolname ≡ some p
      → Told sl first (k none).1
      → ((p : ℕ) → get_spool_by_name sl db poolname ≡ some p → Told sl first (k (some p)).1)
      → Told sl first (k (if_normal status p)).1
  unfolding if_normal
  spool-Told poolname p normal k linked missing live = live p linked
  spool-Told poolname p deleted k linked missing live = missing

  normal_spool-Told :
      (poolname : ℕ) (o : Option ℕ) (k : Option ℕ → Status × Db S T)
      → ((p : ℕ) → o ≡ some p → get_spool_by_name sl db poolname ≡ some p)
      → Told sl first (k none).1
      → ((p : ℕ) → get_spool_by_name sl db poolname ≡ some p → Told sl first (k (some p)).1)
      → Told sl first (k (normal_spool sl db o)).1
  unfolding normal_spool
  normal_spool-Told poolname none k linked missing live = missing
  normal_spool-Told poolname (some p) k linked missing live =
      spool-Told poolname p (db.spools p).pool.status k (linked p refl) missing live

  spool_of-Told :
      (poolname : ℕ) (u : Option ℕ) (k : Option ℕ → Status × Db S T)
      → Told sl first (k none).1
      → ((p : ℕ) → get_spool_by_name sl db poolname ≡ some p → Told sl first (k (some p)).1)
      → Told sl first (k (normal_spool sl db (spool_of sl db poolname u))).1
  unfolding spool_of
  spool_of-Told poolname none k missing live =
      normal_spool-Told poolname none k (λ p h. cc) missing live
  spool_of-Told poolname (some user) k missing live =
      normal_spool-Told poolname (user_spool_get sl db user poolname) k (v.inv.listed user poolname)
        missing live

  -- A pool that is found by its owner is in the list of all names.
  found-Told :
      (username poolname : ℕ) (k : Option ℕ → Status × Db S T)
      → Told sl first (k none).1
      → ((p : ℕ) → get_spool_by_name sl db poolname ≡ some p → Told sl first (k (some p)).1)
      → Told sl first (k (adb_spool_get sl db username poolname)).1
  unfolding adb_spool_get
  found-Told username poolname k missing live =
      spool_of-Told poolname (user_get sl db username) k missing live

  used-Told :
      (poolname : ℕ) (bytes : ℤ) (o : Option ℕ)
      → get_spool_by_name sl db poolname ≡ o
      → Told sl first (used_found sl db bytes o).1
  unfolding used_found
  used-Told poolname bytes none e = v
  used-Told poolname bytes (some p) e =
      let pool = (db.spools p).pool in
      elim (Bool-cases (same_ℤ pool.used bytes)) [
        | inl h ↦ rw h v
        | inr h ↦ rw h (
            edit-Told _ p poolname (record pool { used = bytes }) e refl refl
              (avail-Edited db p (record pool { used = bytes }) db.ext))
      ]

  quota_done-Told :
      (poolname p : ℕ) (quota : ℤ) (x : Reply Unit × S)
      → get_spool_by_name sl db poolname ≡ some p
      → Told sl first (quota_done env sl db p quota x).1
  unfolding quota_done
  quota_done-Told poolname p quota (done u, s) linked =
      let pool = record (db.spools p).pool { quota = quota } in
      edit-Told _ p poolname pool linked refl refl (avail-Edited db p pool s)
  quota_done-Told poolname p quota (fails e, s) linked = ext-Told s

  quota-Told :
      (poolname p : ℕ) (quota : ℤ)
      → get_spool_by_name sl db poolname ≡ some p
      → Told sl first (quota_found env sl db quota (some p)).1
  unfolding quota_found
  quota-Told poolname p quota linked = elim (Bool-cases (same_ℤ (db.spools p).pool.quota quota)) [
    | inl h ↦ rw h v
    | inr h ↦ rw h (
        quota_done-Told poolname p quota
          (dao_spool_set_quota env (db.spools p).pool.id quota db.ext) linked)
  ]

  remove_done-Told :
      (poolname p : ℕ) (x : Reply Unit × S)
      → get_spool_by_name sl db poolname ≡ some p
      → Told sl first (remove_done env sl db p x).1
  unfolding remove_done
  remove_done-Told poolname p (done u, s) linked =
      edit-Told _ p poolname _ linked refl refl (remove-Edited db p s)
  remove_done-Told poolname p (fails e, s) linked = ext-Told s

  run-Told : (c : PoolCall) → Told sl first (run env sl c db).1
  unfolding run adb_spool_set_quota adb_spool_set_used_bytes adb_spool_remove quota_found
      remove_found adb_spool_global_get
  run-Told (set_quota username poolname quota) =
      found-Told username poolname (quota_found env sl db quota) v
        λ p linked. quota-Told poolname p quota linked
  run-Told (set_used_bytes poolname bytes) =
      used-Told poolname bytes (get_spool_by_name sl db poolname) refl
  run-Told (remove username poolname) =
      found-Told username poolname (remove_found env sl db) v λ p linked.
        remove_done-Told poolname p (dao_spool_remove env (db.spools p).pool.id db.ext) linked

module _ {S T : Type 0} (env : Backend S) (sl : Skiplist T) (first : ℕ → Bool) where
  -- Whatever calls change the quota or the used bytes of a pool or remove it, in any order and
  -- with any answers of the directory service, the availability that the callbacks have told
  -- last of a pool is the pool's, if it was so before; and every list goes on to find a pool by
  -- its key.
  pub runs-Told :
      (cs : List PoolCall) (db : Db S T) → Told sl first db → Told sl first (runs env sl cs db)
  unfolding runs
  runs-Told [] db v = v
  runs-Told (c ∷ cs) db v = runs-Told cs (run env sl c db).1 (run-Told env sl first db v c)
