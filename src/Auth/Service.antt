-- ===== src/Auth/Service.antt =====
-- src/auth/server/service_handler.c: the requests of the clients, with their check of the
-- privileges. A request comes with the result of the check of its length, and its fields parsed.
pub mod Guarded
use fast_cfs.Base.{
  ℕ, ℤ, pos, ◌≡◌, Bool, true, false, not, ◌&&◌, ◌||◌, Option, none, some, List, [], ◌∷◌, Status, ok,
  err, eperm, enoent, eexist, einval, enomem, minus_einval, not_master, Errno, if◌then◌else◌, ◌==◌,
  is_ok,
}
use fast_cfs.Auth.Types.{
  UserInfo, PoolInfo, GrantedInfo, Privileges, access_none, has_bit, RowStatus, normal, DbUser,
  DbSpool,
}
use fast_cfs.Auth.Backend.{Backend, Skiplist}
use fast_cfs.Auth.Db.{Db, user_get}
use fast_cfs.Auth.Users.{
  adb_user_get, adb_user_create, adb_user_remove, adb_user_update_priv, adb_user_update_passwd,
}
use fast_cfs.Auth.Pools.{adb_spool_create}
use fast_cfs.Auth.Quota.{
  adb_spool_get, adb_spool_global_get, adb_spool_get_quota, adb_spool_remove, adb_spool_set_quota,
}
use fast_cfs.Auth.Grants.{adb_granted_create, adb_granted_remove, adb_granted_privs_get}
use fast_cfs.Auth.Session.{SessionId, Sessions, Draw, add_new}
use fast_cfs.Auth.Session

-- `ServerSessionFields`, with the pointers to the user and the pool.
pub record SessionFields : Type 0 where
  pub publish : Bool
  pub dbuser : ℕ
  pub dbpool : Option ℕ
  pub pool_privs : Privileges

-- The fields of a login request; a length of 0 for the name of the pool is `none`. `room` says
-- whether the allocator has an object for the session, and `draws` what its id is drawn from.
pub record Login : Type 0 where
  pub username : ℕ
  pub passwd : ℕ
  pub poolname : Option ℕ
  pub publish : Bool
  pub room : Bool
  pub draws : List Draw

-- The requests that this part deals with: not the lists, and the creation of a pool only when its
-- name has no tag of an automatic id and it is no dry run. The status of a creation is the result of
-- `fc_check_filename_ex`.
pub data Request : Type 0 where
  active_test get_master get_leader cluster_stat unknown : Request
  user_login : Login → Request
  user_create : Status → UserInfo → Request
  user_passwd : ℕ → Option ℕ → Request
  user_grant : ℕ → ℕ → Request
  user_remove : ℕ → Request
  spool_create : Status → PoolInfo → Request
  spool_remove : ℕ → Request
  spool_set_quota : ℕ → ℤ → Request
  spool_get_quota : ℕ → Request
  spool_grant : ℕ → ℕ → Privileges → Request
  spool_withdraw : ℕ → ℕ → Request

-- The task: the session that has logged in, if any, with the user of its fields, and whether
-- `SERVER_TASK_TYPE` is that of a session.
pub record Task : Type 0 where
  pub session : Option (SessionId × ℕ)
  pub is_session : Bool

pub record Server (S T : Type 0) : Type 0 where
  pub db : Db S T
  pub sessions : Sessions SessionFields
  pub is_master : Bool

-- What `check_user_priv` asks for: nothing, a login, or a login with the privilege of a bit.
pub data Need : Type 0 where
  anyone : Need
  privilege : ℕ → Need
  refused : Need

unfoldable pub need_of : Request → Need
need_of active_test = anyone
need_of get_master = anyone
need_of get_leader = refused
need_of cluster_stat = anyone
need_of unknown = refused
need_of (user_login q) = anyone
need_of (user_create c u) = privilege 0
need_of (user_passwd n p) = privilege 0
need_of (user_grant n p) = privilege 0
need_of (user_remove n) = privilege 0
need_of (spool_create c p) = privilege 1
need_of (spool_remove n) = privilege 1
need_of (spool_set_quota n q) = privilege 1
need_of (spool_get_quota n) = anyone
need_of (spool_grant u n p) = privilege 1
need_of (spool_withdraw u n) = privilege 1

module _ {S T : Type 0} where
  unfoldable pub has_privilege : Db S T → ℕ → Option (SessionId × ℕ) → Bool
  has_privilege db k none = false
  has_privilege db k (some (id, u)) = has_bit (db.users u).user.priv k

  unfoldable pub check_need : Db S T → Option (SessionId × ℕ) → Need → Status
  unfolding has_privilege
  check_need db session anyone = ok
  check_need db session (privilege k) = if has_privilege db k session then ok else err eperm
  check_need db session refused = err minus_einval

  unfoldable pub check_user_priv : Db S T → Task → Request → Status
  unfolding check_need need_of
  check_user_priv db task r = check_need db task.session (need_of r)

abbrev pub same_passwd : Option ℕ → ℕ → Bool
same_passwd none p = false
same_passwd (some q) p = q == p

abbrev pub no_access : Privileges → Bool
no_access p = (p.fdir == 0) && (p.fstore == 0)

-- The answer to a request: its result code, the task and the server. `none` stands for a login
-- whose draws have all met a session that exists.
abbrev pub Answer : Type 0 → Type 0 → Type 0
Answer S T = Option (Status × Task × Server S T)

module _ {S T : Type 0} (env : Backend S) (sl : Skiplist T) where
  pub login_added : Task → Server S T → ℕ → Option (SessionId × Sessions SessionFields) → Answer S T
  login_added task server u none = none
  login_added task server u (some (id, sessions)) = some (
    ok,
    record { session = some (id, u); is_session = true },
    record server { sessions = sessions },
  )

  pub login_session : Task → Server S T → Login → SessionFields → Answer S T
  unfolding login_added add_new
  login_session task server q fields =
      if q.room
      then login_added task server fields.dbuser
          (add_new server.sessions fields.publish false fields q.draws)
      else some (err enomem, task, server)

  pub login_privs : Task → Server S T → Login → ℕ → ℕ → Status × Privileges → Answer S T
  unfolding login_session
  login_privs task server q u p (ok, privs) =
      login_session task server q
        (record { publish = q.publish; dbuser = u; dbpool = some p; pool_privs = privs })
  login_privs task server q u p (err e, privs) = some (err eperm, task, server)

  pub login_pool : Task → Server S T → Login → ℕ → Option ℕ → Answer S T
  unfolding login_privs adb_granted_privs_get
  login_pool task server q u none = some (err enoent, task, server)
  login_pool task server q u (some p) =
      login_privs task server q u p (adb_granted_privs_get sl server.db u p)

  pub login_as : Task → Server S T → Login → ℕ → Option ℕ → Answer S T
  unfolding login_pool login_session adb_spool_global_get
  login_as task server q u none =
      login_session task server q
        (record { publish = q.publish; dbuser = u; dbpool = none; pool_privs = access_none })
  login_as task server q u (some poolname) =
      login_pool task server q u (adb_spool_global_get sl server.db poolname)

  pub login_user : Task → Server S T → Login → Option ℕ → Answer S T
  unfolding login_as
  login_user task server q none = some (err eperm, task, server)
  login_user task server q (some u) =
      if same_passwd (server.db.users u).user.passwd q.passwd
      then login_as task server q u q.poolname
      else some (err eperm, task, server)

  -- `-EEXIST`, and the connection is closed
  abbrev pub already : Errno
  already = Errno.other 17

  pub login_for : Task → Server S T → Login → Option (SessionId × ℕ) → Answer S T
  unfolding login_user adb_user_get
  login_for task server q (some session) = some (err already, task, server)
  login_for task server q none =
      if task.is_session
      then some (err already, task, server)
      else login_user task server q (adb_user_get env sl server.db q.username)

  unfoldable pub service_deal_user_login : Task → Server S T → Login → Answer S T
  unfolding login_for
  service_deal_user_login task server q = login_for task server q task.session

  -- the answer of a handler that works on the database
  unfoldable pub on_db : Task → Server S T → Status × Db S T → Answer S T
  on_db task server (r, db) = some (r, task, record server { db = db })

  -- `SESSION_USER.name`
  pub name_of : Db S T → Option (SessionId × ℕ) → ℕ
  name_of db none = 0
  name_of db (some (id, u)) = (db.users u).user.name

  pub grant_pool : Db S T → ℕ → Privileges → Option ℕ → Status × Db S T
  unfolding adb_granted_create
  grant_pool db dest privs none = (err enoent, db)
  grant_pool db dest privs (some p) =
      if no_access privs
      then (err einval, db)
      else adb_granted_create env sl db dest
          (record { id = 0; pool_id = (db.spools p).pool.id; privs = privs })

  pub withdraw_pool : Db S T → ℕ → Option ℕ → Status × Db S T
  unfolding adb_granted_remove
  withdraw_pool db dest none = (err enoent, db)
  withdraw_pool db dest (some p) = adb_granted_remove env sl db dest (db.spools p).pool.id

  pub named : Status → Db S T → Status × Db S T → Status × Db S T
  named ok db r = r
  named (err e) db r = (err e, db)

  -- The handlers of `service_process`.
  unfoldable pub handle : Task → Server S T → Request → Answer S T
  unfolding on_db service_deal_user_login
  handle task server active_test = some (ok, task, server)
  handle task server get_master = some (ok, task, server)
  handle task server get_leader = some (ok, task, server)
  handle task server cluster_stat = some (ok, task, server)
  handle task server unknown = some (err minus_einval, task, server)
  handle task server (user_login q) = service_deal_user_login task server q
  handle task server (user_create c u) =
      on_db task server (named c server.db (adb_user_create env sl server.db u))
  handle task server (user_passwd n p) =
      on_db task server (adb_user_update_passwd env sl server.db n p)
  handle task server (user_grant n p) =
      on_db task server (adb_user_update_priv env sl server.db n p)
  handle task server (user_remove n) = on_db task server (adb_user_remove env sl server.db n)
  handle task server (spool_create c p) =
      on_db task server
        (named c server.db (adb_spool_create env sl server.db (name_of server.db task.session) p))
  handle task server (spool_remove n) =
      on_db task server (adb_spool_remove env sl server.db (name_of server.db task.session) n)
  handle task server (spool_set_quota n q) =
      on_db task server (adb_spool_set_quota env sl server.db (name_of server.db task.session) n q)
  handle task server (spool_get_quota n) =
      some ((adb_spool_get_quota sl server.db n).0, task, server)
  handle task server (spool_grant dest n privs) = on_db task server (
      grant_pool server.db dest privs
        (adb_spool_get sl server.db (name_of server.db task.session) n))
  handle task server (spool_withdraw dest n) =
      on_db task server (
        withdraw_pool server.db dest
          (adb_spool_get sl server.db (name_of server.db task.session) n))

  unfoldable pub for_anyone : Request → Bool
  for_anyone active_test = true
  for_anyone get_master = true
  for_anyone get_leader = true
  for_anyone _ = false

  unfoldable pub when_ok : Status → Task → Server S T → Answer S T → Answer S T
  when_ok ok task server rest = rest
  when_ok (err e) task server rest = some (err e, task, server)

  unfoldable pub service_process : Task → Server S T → Status → Request → Answer S T
  unfolding when_ok handle
  service_process task server body r =
      if not server.is_master && not (for_anyone r)
      then some (err not_master, task, server)
      else when_ok body task server (handle task server r)

  unfoldable pub service_deal_task : Task → Server S T → Status → Request → Answer S T
  unfolding when_ok service_process check_user_priv
  service_deal_task task server body r =
      when_ok (check_user_priv server.db task r) task server (service_process task server body r)

  pub end_session : Server S T → Option (SessionId × ℕ) → Server S T
  unfolding Session.delete
  end_session server none = server
  end_session server (some (id, u)) = record server {
    sessions = (Session.delete server.sessions id).1;
  }

  unfoldable pub service_task_finish_cleanup : Task → Server S T → Task × Server S T
  unfolding end_session
  service_task_finish_cleanup task server =
      if task.is_session
      then (record { session = none; is_session = false }, end_session server task.session)
      else (task, server)
