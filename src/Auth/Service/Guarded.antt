-- ===== src/Auth/Service/Guarded.antt =====
-- Who may change the database with a request.
use fast_cfs.Base.{
  subst, ℕ, ◌≡◌, true, false, not, ◌&&◌, Option, none, some, Status, ok, err, eperm, refl, sym,
  Bool-cases, inl, inr, ◌⊎◌,
}
use fast_cfs.Auth.Types.{Privileges}
use fast_cfs.Auth.Backend.{Backend, Skiplist}
use fast_cfs.Auth.Db.{Db}
use fast_cfs.Auth.Users.{adb_user_get}
use fast_cfs.Auth.Quota.{adb_spool_global_get}
use fast_cfs.Auth.Session.{SessionId, Sessions}
use fast_cfs.Auth.Service.{
  Login, Request, active_test, get_master, get_leader, cluster_stat, unknown, user_login,
  user_create, user_passwd, user_grant, user_remove, spool_create, spool_remove, spool_set_quota,
  spool_get_quota, spool_grant, spool_withdraw, Task, Server, SessionFields, need_of, privilege,
  has_privilege, check_need, check_user_priv, Answer, login_added, login_session, login_privs,
  login_pool, login_as, login_user, login_for, service_deal_user_login, handle, when_ok,
  service_process, service_deal_task, for_anyone, same_passwd,
}

-- The privilege with which a request may change the database: 0 is `USER_MANAGE`, 1 is
-- `CREATE_POOL`.
abbrev pub bit_of : Request → Option ℕ
bit_of (user_create c u) = some 0
bit_of (user_passwd n p) = some 0
bit_of (user_grant n p) = some 0
bit_of (user_remove n) = some 0
bit_of (spool_create c p) = some 1
bit_of (spool_remove n) = some 1
bit_of (spool_set_quota n q) = some 1
bit_of (spool_grant u n p) = some 1
bit_of (spool_withdraw u n) = some 1
bit_of _ = none

module _ {S T : Type 0} where
  -- The user of the session has the privilege now.
  abbrev pub Permitted : Db S T → Option (SessionId × ℕ) → Option ℕ → Type 0
  Permitted db session none = ⊥
  Permitted db session (some k) = has_privilege db k session ≡ true

  -- The answer leaves the database as it was.
  abbrev pub KeepsDb : Db S T → Answer S T → Type 0
  KeepsDb db none = Unit
  KeepsDb db (some (c, task, server)) = server.db ≡ db

module _ {S T : Type 0} (env : Backend S) (sl : Skiplist T) (task : Task)
    (server : Server S T) where
  added-KeepsDb :
      (u : ℕ) (o : Option (SessionId × Sessions SessionFields))
      → KeepsDb server.db (login_added env sl task server u o)
  unfolding login_added
  added-KeepsDb u none = tt
  added-KeepsDb u (some (id, sessions)) = refl

  session-KeepsDb :
      (q : Login) (fields : SessionFields)
      → KeepsDb server.db (login_session env sl task server q fields)
  unfolding login_session
  session-KeepsDb q fields = elim (Bool-cases q.room) [
    | inl h ↦ rw h (added-KeepsDb fields.dbuser _)
    | inr h ↦ rw h refl
  ]

  privs-KeepsDb :
      (q : Login) (u p : ℕ) (x : Status × Privileges)
      → KeepsDb server.db (login_privs env sl task server q u p x)
  unfolding login_privs
  privs-KeepsDb q u p (ok, privs) = session-KeepsDb q _
  privs-KeepsDb q u p (err e, privs) = refl

  pool-KeepsDb :
      (q : Login) (u : ℕ) (o : Option ℕ) → KeepsDb server.db (login_pool env sl task server q u o)
  unfolding login_pool
  pool-KeepsDb q u none = refl
  pool-KeepsDb q u (some p) = privs-KeepsDb q u p _

  as-KeepsDb :
      (q : Login) (u : ℕ) (o : Option ℕ) → KeepsDb server.db (login_as env sl task server q u o)
  unfolding login_as
  as-KeepsDb q u none = session-KeepsDb q _
  as-KeepsDb q u (some poolname) = pool-KeepsDb q u (adb_spool_global_get sl server.db poolname)

  user-KeepsDb : (q : Login) (o : Option ℕ) → KeepsDb server.db (login_user env sl task server q o)
  unfolding login_user
  user-KeepsDb q none = refl
  user-KeepsDb q (some u) =
      elim (Bool-cases (same_passwd (server.db.users u).user.passwd q.passwd)) [
        | inl h ↦ rw h (as-KeepsDb q u q.poolname)
        | inr h ↦ rw h refl
      ]

  for-KeepsDb :
      (q : Login) (o : Option (SessionId × ℕ))
      → KeepsDb server.db (login_for env sl task server q o)
  unfolding login_for
  for-KeepsDb q (some session) = refl
  for-KeepsDb q none = elim (Bool-cases task.is_session) [
    | inl h ↦ simp h refl
    | inr h ↦ simp h (user-KeepsDb q (adb_user_get env sl server.db q.username))
  ]

  login-KeepsDb : (q : Login) → KeepsDb server.db (service_deal_user_login env sl task server q)
  unfolding service_deal_user_login
  login-KeepsDb q = for-KeepsDb q task.session

  -- What a request that nobody may change the database with does.
  handle-KeepsDb : (r : Request) → bit_of r ≡ none → KeepsDb server.db (handle env sl task server r)
  unfolding handle
  handle-KeepsDb (user_login q) h = login-KeepsDb q
  handle-KeepsDb active_test h = refl
  handle-KeepsDb get_master h = refl
  handle-KeepsDb get_leader h = refl
  handle-KeepsDb cluster_stat h = refl
  handle-KeepsDb unknown h = refl
  handle-KeepsDb (spool_get_quota n) h = refl
  handle-KeepsDb _ h = cc

  when_ok-KeepsDb :
      (c : Status) (a : Answer S T)
      → KeepsDb server.db a
      → KeepsDb server.db (when_ok env sl c task server a)
  unfolding when_ok
  when_ok-KeepsDb ok a h = h
  when_ok-KeepsDb (err e) a h = refl

  process-KeepsDb :
      (body : Status) (r : Request)
      → bit_of r ≡ none
      → KeepsDb server.db (service_process env sl task server body r)
  unfolding service_process
  process-KeepsDb body r h = elim (Bool-cases (not server.is_master && not (for_anyone env sl r))) [
    | inl k ↦ rw k refl
    | inr k ↦ rw k (when_ok-KeepsDb body _ (handle-KeepsDb r h))
  ]

  need-bit : (r : Request) (k : ℕ) → bit_of r ≡ some k → need_of r ≡ privilege k
  unfolding need_of
  need-bit (user_create c u) k h = cc
  need-bit (user_passwd n p) k h = cc
  need-bit (user_grant n p) k h = cc
  need-bit (user_remove n) k h = cc
  need-bit (spool_create c p) k h = cc
  need-bit (spool_remove n) k h = cc
  need-bit (spool_set_quota n q) k h = cc
  need-bit (spool_grant u n p) k h = cc
  need-bit (spool_withdraw u n) k h = cc
  need-bit _ k h = cc

  -- A request that needs a privilege, without it.
  refused_deal :
      (body : Status) (r : Request) (k : ℕ)
      → bit_of r ≡ some k
      → has_privilege server.db k task.session ≡ false
      → service_deal_task env sl task server body r ≡ some (err eperm, task, server)
  unfolding service_deal_task check_user_priv check_need when_ok
  refused_deal body r k h lacks = rw (need-bit r k h, lacks) refl

  refused-KeepsDb :
      (body : Status) (r : Request) (k : ℕ)
      → bit_of r ≡ some k
      → has_privilege server.db k task.session ≡ false
      → KeepsDb server.db (service_deal_task env sl task server body r)
  refused-KeepsDb body r k h lacks =
      subst (KeepsDb server.db) (sym (refused_deal body r k h lacks)) refl

  bit-Guarded :
      (body : Status) (r : Request) (o : Option ℕ)
      → bit_of r ≡ o
      → Permitted server.db task.session o
        ⊎ KeepsDb server.db (service_deal_task env sl task server body r)
  unfolding service_deal_task
  bit-Guarded body r none h = inr (when_ok-KeepsDb _ _ (process-KeepsDb body r h))
  bit-Guarded body r (some k) h = elim (Bool-cases (has_privilege server.db k task.session)) [
    | inl has ↦ inl has
    | inr lacks ↦ inr (refused-KeepsDb body r k h lacks)
  ]

  -- A request leaves users, pools and grants as they were, whatever its outcome, unless the task
  -- has logged in and its user now has the privilege to manage users, for a request on users, or
  -- to create pools, for a request on pools and grants.
  pub service_deal_task-Guarded :
      (body : Status) (r : Request)
      → Permitted server.db task.session (bit_of r)
        ⊎ KeepsDb server.db (service_deal_task env sl task server body r)
  service_deal_task-Guarded body r = bit-Guarded body r (bit_of r) refl
