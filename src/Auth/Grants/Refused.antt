-- ===== src/Auth/Grants/Refused.antt =====
-- A change of the privileges of a grant, when the directory service refuses it.
use fast_cfs.Base.{ℕ, ◌≡◌, true, false, some, Status, err, Errno, refl, ap, ◌∙◌, arith, Memᴰ, head}
use fast_cfs.Auth.Types.{GrantedInfo, normal}
use fast_cfs.Auth.Backend.{Reply, done, fails, Backend, Skiplist}
use fast_cfs.Auth.Dao.{dao_granted_create}
use fast_cfs.Auth.Db.{Db, set_grant, user_get, granted_pool_get}
use fast_cfs.Auth.Users.{adb_user_get_normal}
use fast_cfs.Auth.Grants.{
  set_granted, free_grant, grant_store, grant_fill, granted_pool_create, grant_changed, grant_to,
  grant_found, adb_granted_create, same_privs,
}
use fast_cfs.Auth.Grants.Rights.{rights, privs_at}

module _ {S T : Type 0} (env : Backend S) (sl : Skiplist T) (db : Db S T) (u p : ℕ)
    (granted : GrantedInfo) (e : Errno) where
  -- The object at `p` is freed and holds the refused privileges; the lists are as they were.
  pub record Dangling (c : Status) (db' : Db S T) : Type 0 where
    pub refused : c ≡ err e
    pub freed : Memᴰ p db'.freed_grants
    pub users : db'.users ≡ db.users
    pub at : (db'.grants p).granted.privs ≡ granted.privs

  Dangling-rights :
      (c : Status) (db' : Db S T)
      → granted_pool_get sl db u granted.pool_id ≡ some p
      → Dangling c db'
      → rights sl db' u granted.pool_id ≡ some granted.privs
  unfolding rights
  Dangling-rights c db' listed d =
      ap (privs_at db') (ap (λ us. sl.find (us u).granted granted.pool_id) d.users ∙ listed)
      ∙ ap some d.at

  store-Dangling :
      (d : Db S T) (x : Reply ℕ × S)
      → d.users ≡ db.users
      → (d.grants p).granted.privs ≡ granted.privs
      → x.0 ≡ fails e
      → let (c, db') = grant_changed env sl u p (grant_store env sl d u p granted false x) in
        Dangling c db'
  unfolding grant_store free_grant grant_changed
  store-Dangling d (done id, s) users at h = cc
  store-Dangling d (fails e', s) users at h = record {
    refused = cc;
    freed = head refl;
    users = users;
    at = at;
  }

  fill-Dangling :
      let info = record (db.grants p).granted {
        pool_id = granted.pool_id;
        privs = granted.privs;
      } in
      (dao_granted_create env (db.users u).user.name info db.ext).0 ≡ fails e
      → let (c, db') = grant_changed env sl u p (grant_fill env sl db u p granted false true) in
        Dangling c db'
  unfolding grant_fill set_granted set_grant
  fill-Dangling refused =
      let info = record (db.grants p).granted {
        pool_id = granted.pool_id;
        privs = granted.privs;
      } in
      store-Dangling (set_granted db p info)
        (dao_granted_create env (db.users u).user.name info db.ext) refl (ground arith) refused

-- When the directory service refuses a change of the privileges of a grant, the call fails, but the
-- user's list still finds the grant, with the refused privileges, and its object is freed.
pub adb_granted_create-Dangling :
    {S T : Type 0} (env : Backend S) (sl : Skiplist T) (db : Db S T) (username u p : ℕ)
    (granted : GrantedInfo) (e : Errno)
    → user_get sl db username ≡ some u
    → (db.users u).user.status ≡ normal
    → granted_pool_get sl db u granted.pool_id ≡ some p
    → same_privs (db.grants p).granted.privs granted.privs ≡ false
    → (dao_granted_create env
        (db.users u).user.name
        (record (db.grants p).granted { pool_id = granted.pool_id; privs = granted.privs })
        db.ext).0
      ≡ fails e
    → let (c, db') = adb_granted_create env sl db username granted in
      Dangling env sl db u p granted e c db'
      × (rights sl db' u granted.pool_id ≡ some granted.privs)
unfolding adb_granted_create grant_found grant_to granted_pool_create
adb_granted_create-Dangling env sl db username u p granted e found live listed differ refused =
    rw (adb_user_get_normal env sl db username u found live, listed, differ)
      (let d = fill-Dangling env sl db u p granted e refused in
        (d, Dangling-rights env sl db u p granted e _ _ listed d))
