-- ===== src/Auth/Users.antt =====
-- src/auth/server/db/auth_db.c: the operations on the users.
pub mod View
pub mod Filled
pub mod Refine
pub mod Agree
pub mod Create
pub mod Calls
pub mod History
use fast_cfs.Base.{
  ℕ, suc, ◌+◌, ℤ, pos, negsuc, ◌+ℤ◌, ◌≡◌, Bool, true, false, Option, none, some, List, [], ◌∷◌,
  Status, ok, err, enomem, eexist, enoent, is_ok, if◌then◌else◌, ◌==◌,
}
use fast_cfs.Auth.Types.{DbUser, UserInfo, RowStatus, normal, deleted, user_priv_changed}
use fast_cfs.Auth.Backend.{Reply, done, fails, Backend, Skiplist}
use fast_cfs.Auth.Dao.{
  dao_user_create, dao_user_update_priv, dao_user_update_passwd, dao_user_remove,
}
use fast_cfs.Auth.Db.{Db, set_user, set_info, call_back, user_get, if_normal}

module _ {S T : Type 0} (env : Backend S) (sl : Skiplist T) where
  -- the normal user of a name
  pub normal_of : Db S T → Option ℕ → Option ℕ
  unfolding if_normal
  normal_of db none = none
  normal_of db (some p) = if_normal (db.users p).user.status p

  -- `adb_user_get`
  unfoldable pub adb_user_get : Db S T → ℕ → Option ℕ
  unfolding normal_of if_normal
  adb_user_get db name = normal_of db (user_get sl db name)

  pub adb_user_get_normal :
      (db : Db S T) (name p : ℕ)
      → user_get sl db name ≡ some p
      → (db.users p).user.status ≡ normal
      → adb_user_get db name ≡ some p
  unfolding adb_user_get normal_of if_normal
  adb_user_get_normal db name p found live = rw (found, live)

  -- what `user_set_passwd` makes of the new string
  pub set_passwd : Db S T → ℕ → Reply (Option ℕ) × S → Status × Db S T
  unfolding set_info
  set_passwd db p (done str, s) =
      (ok, record (set_info db p (record (db.users p).user { passwd = str })) { ext = s })
  set_passwd db p (fails e, s) =
      (err e, record (set_info db p (record (db.users p).user { passwd = none })) { ext = s })

  unfoldable pub user_set_passwd : Db S T → ℕ → Option ℕ → Status × Db S T
  unfolding set_passwd
  user_set_passwd db p passwd = set_passwd db p (env.alloc_string passwd db.ext)

  pub count_insert : Db S T → Status × T → Db S T
  count_insert db (ok, t) = record db { user_list = t; count = db.count +ℤ pos 1 }
  count_insert db (err e, t) = record db { user_list = t }

  -- the part of `user_create` under the lock
  pub user_link : Db S T → ℕ → UserInfo → Bool → Db S T
  unfolding set_info count_insert
  user_link db p user need_insert =
      let db' = set_info db p (record (db.users p).user { status = user.status }) in
      if need_insert then count_insert db' (sl.insert db'.user_list user.name p) else db'

  -- `id` is the inode that the backend has stored the user under, or the user's own.
  pub user_store : Db S T → ℕ → UserInfo → Bool → Reply ℕ × S → Status × Db S T
  unfolding user_link set_info
  user_store db p user need_insert (done id, s) = (
    ok,
    user_link (set_info (record db { ext = s }) p (record (db.users p).user { id = id })) p user
        need_insert,
  )
  user_store db p user need_insert (fails e, s) = (err e, record db { ext = s })

  pub user_fill : ℕ → UserInfo → Bool → Bool → Status × Db S T → Status × Db S T
  unfolding user_store set_info dao_user_create
  user_fill p user need_insert addto_backend (ok, db) =
      let db' = set_info db p (record (db.users p).user { priv = user.priv }) in
      user_store db' p user need_insert (
        if addto_backend
        then dao_user_create env (db'.users p).user db'.ext
        else (done user.id, db'.ext))
  user_fill p user need_insert addto_backend (err e, db) = (err e, db)

  -- The allocated object, cleared but for its skiplists and its name.
  unfoldable pub new_user : ℕ → DbUser T
  new_user name = record {
    user = record { id = 0; name = name; passwd = none; priv = 0; status = normal };
    created = sl.empty;
    granted = sl.empty;
  }

  pub user_named : Db S T → UserInfo → Bool → Reply (Option ℕ) × S → Status × Option ℕ × Db S T
  unfolding user_fill user_set_passwd set_user new_user
  user_named db user addto_backend (done str, s) =
      let p = db.next_user in
      let db' = set_user (record db { ext = s; next_user = suc p }) p (new_user user.name) in
      let (r, db'') = user_fill p user true addto_backend (user_set_passwd db' p user.passwd) in
      (r, some p, db'')
  user_named db user addto_backend (fails e, s) = (err e, some db.next_user, record db { ext = s })

  pub user_alloc : Db S T → UserInfo → Bool → Bool × S → Status × Option ℕ × Db S T
  unfolding user_named
  user_alloc db user addto_backend (true, s) =
      user_named db user addto_backend (env.alloc_string (some user.name) s)
  user_alloc db user addto_backend (false, s) = (err enomem, none, record db { ext = s })

  -- `user_create`, which returns the pointer `*dbuser` too
  unfoldable pub user_create : Db S T → Option ℕ → UserInfo → Bool → Status × Option ℕ × Db S T
  unfolding user_alloc user_fill user_set_passwd
  user_create db none user addto_backend =
      user_alloc db user addto_backend (env.alloc_object db.ext)
  user_create db (some p) user addto_backend =
      let (r, db') = user_fill p user false addto_backend (user_set_passwd db p user.passwd) in
      (r, some p, db')

  pub create_unless : Db S T → UserInfo → Option ℕ → Option ℕ → Status × Db S T
  unfolding user_create
  create_unless db user found (some p) = (err eexist, db)
  create_unless db user found none = let (r, q, db') = user_create db found user true in (r, db')

  unfoldable pub adb_user_create : Db S T → UserInfo → Status × Db S T
  unfolding create_unless normal_of if_normal
  adb_user_create db user =
      let found = user_get sl db user.name in create_unless db user found (normal_of db found)

  pub remove_done : Db S T → ℕ → Reply Unit × S → Status × Db S T
  unfolding set_info
  remove_done db p (done _, s) = (
    ok,
    record (set_info db p (record (db.users p).user { status = deleted })) {
      ext = s;
      count = db.count +ℤ negsuc 0;
    },
  )
  remove_done db p (fails e, s) = (err e, record db { ext = s })

  pub remove_found : Db S T → Option ℕ → Status × Db S T
  unfolding remove_done dao_user_remove
  remove_found db none = (err enoent, db)
  remove_found db (some p) = remove_done db p (dao_user_remove env (db.users p).user.id db.ext)

  unfoldable pub adb_user_remove : Db S T → ℕ → Status × Db S T
  unfolding remove_found adb_user_get
  adb_user_remove db name = remove_found db (adb_user_get db name)

  pub priv_done : Db S T → ℕ → ℕ → Reply Unit × S → Status × Db S T
  unfolding set_info call_back
  priv_done db p priv (done _, s) = (
    ok,
    call_back (record (set_info db p (record (db.users p).user { priv = priv })) { ext = s })
        (user_priv_changed (db.users p).user.id priv),
  )
  priv_done db p priv (fails e, s) = (err e, record db { ext = s })

  pub priv_found : Db S T → ℕ → Option ℕ → Status × Db S T
  unfolding priv_done dao_user_update_priv
  priv_found db priv none = (err enoent, db)
  priv_found db priv (some p) =
      if (db.users p).user.priv == priv
      then (ok, db)
      else priv_done db p priv (dao_user_update_priv env (db.users p).user.id priv db.ext)

  unfoldable pub adb_user_update_priv : Db S T → ℕ → ℕ → Status × Db S T
  unfolding priv_found adb_user_get
  adb_user_update_priv db name priv = priv_found db priv (adb_user_get db name)

  pub passwd_done : Db S T → ℕ → Option ℕ → Reply Unit × S → Status × Db S T
  unfolding user_set_passwd
  passwd_done db p passwd (done _, s) = (ok, (user_set_passwd (record db { ext = s }) p passwd).1)
  passwd_done db p passwd (fails e, s) = (err e, record db { ext = s })

  pub passwd_found : Db S T → Option ℕ → Option ℕ → Status × Db S T
  unfolding passwd_done dao_user_update_passwd
  passwd_found db passwd none = (err enoent, db)
  passwd_found db passwd (some p) =
      passwd_done db p passwd (dao_user_update_passwd env (db.users p).user.id passwd db.ext)

  unfoldable pub adb_user_update_passwd : Db S T → ℕ → Option ℕ → Status × Db S T
  unfolding passwd_found adb_user_get
  adb_user_update_passwd db name passwd = passwd_found db passwd (adb_user_get db name)
