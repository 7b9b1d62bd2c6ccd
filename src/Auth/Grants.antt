-- ===== src/Auth/Grants.antt =====
-- src/auth/server/db/auth_db.c: the pools that users are granted.
pub mod Rights
pub mod Relist
pub mod Calls
pub mod Privs
pub mod Refused
use fast_cfs.Base.{
  ℕ, suc, ◌+◌, ◌≡◌, Bool, true, false, not, ◌&&◌, Option, none, some, List, [], ◌∷◌, Status, ok,
  err, enomem, enoent, if◌then◌else◌, ◌==◌,
}
use fast_cfs.Auth.Types.{
  DbUser, DbGranted, GrantedInfo, Privileges, access_none, access_all, RowStatus, normal, deleted,
  pool_priv_changed,
}
use fast_cfs.Auth.Backend.{Reply, done, fails, Backend, Skiplist}
use fast_cfs.Auth.Dao.{dao_granted_create, dao_granted_remove}
use fast_cfs.Auth.Db.{
  Db, set_user, set_grant, call_back, user_get, granted_pool_get, get_spool_by_id, if_normal,
}
use fast_cfs.Auth.Users.{adb_user_get}

abbrev pub same_privs : Privileges → Privileges → Bool
same_privs a b = (a.fdir == b.fdir) && (a.fstore == b.fstore)

module _ {S T : Type 0} where
  unfoldable pub set_granted : Db S T → ℕ → GrantedInfo → Db S T
  unfolding set_grant
  set_granted db p g = set_grant db p (record (db.grants p) { granted = g })

  unfoldable pub free_grant : Db S T → ℕ → Db S T
  free_grant db p = record db { freed_grants = p ∷ db.freed_grants }

module _ {S T : Type 0} (env : Backend S) (sl : Skiplist T) where
  pub insert_done : Db S T → ℕ → ℕ → Status × T → Status × Db S T
  unfolding set_user free_grant
  insert_done db u p (ok, t) = (ok, set_user db u (record (db.users u) { granted = t }))
  insert_done db u p (err e, t) =
      (err e, free_grant (set_user db u (record (db.users u) { granted = t })) p)

  -- the insertion, with the pool that the list of ids finds
  pub grant_insert : Db S T → ℕ → ℕ → ℕ → Option ℕ → Status × Db S T
  unfolding insert_done set_grant free_grant
  grant_insert db u p pool_id (some q) =
      insert_done (set_grant db p (record (db.grants p) { sp = q })) u p
        (sl.insert (db.users u).granted pool_id p)
  grant_insert db u p pool_id none = (err enoent, free_grant db p)

  pub grant_store : Db S T → ℕ → ℕ → GrantedInfo → Bool → Reply ℕ × S → Status × Db S T
  unfolding grant_insert set_granted free_grant
  grant_store db u p granted need_insert (done id, s) =
      let db' = set_granted (record db { ext = s }) p (record (db.grants p).granted { id = id }) in
      if need_insert
      then grant_insert db' u p granted.pool_id (get_spool_by_id sl db' granted.pool_id)
      else (ok, db')
  grant_store db u p granted need_insert (fails e, s) =
      (err e, free_grant (record db { ext = s }) p)

  pub grant_fill : Db S T → ℕ → ℕ → GrantedInfo → Bool → Bool → Status × Db S T
  unfolding grant_store set_granted dao_granted_create
  grant_fill db u p granted need_insert addto_backend =
      let info = record (db.grants p).granted {
        pool_id = granted.pool_id;
        privs = granted.privs;
      } in
      let db' = set_granted db p info in
      grant_store db' u p granted need_insert (
        if addto_backend
        then dao_granted_create env (db'.users u).user.name info db'.ext
        else (done granted.id, db'.ext))

  pub grant_alloc : Db S T → ℕ → GrantedInfo → Bool → Bool × S → Status × Option ℕ × Db S T
  unfolding grant_fill
  grant_alloc db u granted addto_backend (true, s) =
      let p = db.next_grant in
      let (r, db') =
        grant_fill (record db { ext = s; next_grant = suc p }) u p granted true addto_backend in
      (r, some p, db')
  grant_alloc db u granted addto_backend (false, s) = (err enomem, none, record db { ext = s })

  -- `granted_pool_create`, which returns the pointer `*dbgranted` too
  unfoldable pub granted_pool_create :
      Db S T → ℕ → Option ℕ → GrantedInfo → Bool → Status × Option ℕ × Db S T
  unfolding grant_alloc grant_fill
  granted_pool_create db u none granted addto_backend =
      grant_alloc db u granted addto_backend (env.alloc_object db.ext)
  granted_pool_create db u (some p) granted addto_backend =
      let (r, db') = grant_fill db u p granted false addto_backend in (r, some p, db')

  -- the call of the callback after a change
  pub grant_changed : ℕ → ℕ → Status × Db S T → Status × Db S T
  unfolding call_back
  grant_changed u p (ok, db) =
      let granted = (db.grants p).granted in
      (ok, call_back db (pool_priv_changed (db.users u).user.id granted.pool_id granted.privs))
  grant_changed u p (err e, db) = (err e, db)

  pub grant_to : Db S T → ℕ → GrantedInfo → Option ℕ → Status × Db S T
  unfolding grant_changed granted_pool_create
  grant_to db u granted (some p) =
      if same_privs (db.grants p).granted.privs granted.privs
      then (ok, db)
      else (let (r, _, db') = granted_pool_create db u (some p) granted true in
          grant_changed u p (r, db'))
  grant_to db u granted none =
      let (r, _, db') = granted_pool_create db u none granted true in (r, db')

  pub grant_found : Db S T → GrantedInfo → Option ℕ → Status × Db S T
  unfolding grant_to
  grant_found db granted none = (err enoent, db)
  grant_found db granted (some u) = grant_to db u granted (granted_pool_get sl db u granted.pool_id)

  unfoldable pub adb_granted_create : Db S T → ℕ → GrantedInfo → Status × Db S T
  unfolding grant_found adb_user_get
  adb_granted_create db username granted = grant_found db granted (adb_user_get env sl db username)

  -- The skiplist frees the object that it deletes.
  pub withdraw_done : Db S T → ℕ → ℕ → Reply Unit × S → Status × Db S T
  unfolding call_back set_user free_grant
  withdraw_done db u p (done _, s) =
      let pool_id = (db.grants p).granted.pool_id in
      let db' =
        call_back (record db { ext = s })
          (pool_priv_changed (db.users u).user.id pool_id access_none) in
      let user = record (db.users u) { granted = sl.delete (db.users u).granted pool_id } in
      (ok, free_grant (set_user db' u user) p)
  withdraw_done db u p (fails e, s) = (err e, record db { ext = s })

  pub withdraw_from : Db S T → ℕ → ℕ → ℕ → Option ℕ → Status × Db S T
  unfolding withdraw_done dao_granted_remove
  withdraw_from db username u pool_id none = (err enoent, db)
  withdraw_from db username u pool_id (some p) =
      withdraw_done db u p (dao_granted_remove env username pool_id db.ext)

  pub withdraw_found : Db S T → ℕ → ℕ → Option ℕ → Status × Db S T
  unfolding withdraw_from
  withdraw_found db username pool_id none = (err enoent, db)
  withdraw_found db username pool_id (some u) =
      withdraw_from db username u pool_id (granted_pool_get sl db u pool_id)

  unfoldable pub adb_granted_remove : Db S T → ℕ → ℕ → Status × Db S T
  unfolding withdraw_found adb_user_get
  adb_granted_remove db username pool_id =
      withdraw_found db username pool_id (adb_user_get env sl db username)

module _ {S T : Type 0} (sl : Skiplist T) where
  pub privs_of : Db S T → Option ℕ → Status × Privileges
  privs_of db none = (err enoent, access_none)
  privs_of db (some p) = (ok, (db.grants p).granted.privs)

  -- The privileges are written only when the status is `ok`.
  unfoldable pub adb_granted_privs_get : Db S T → ℕ → ℕ → Status × Privileges
  unfolding privs_of
  adb_granted_privs_get db u dbpool =
      if (db.spools dbpool).owner == u
      then (ok, access_all)
      else privs_of db (granted_pool_get sl db u (db.spools dbpool).pool.id)
