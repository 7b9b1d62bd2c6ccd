-- ===== src/Auth/Dao.antt =====
-- src/auth/server/db/dao: the calls of the FastDIR client that store a row.
use fast_cfs.Base.{ℕ, ℤ, Option, Bool, true, false, Errno, enoent, eexist, if◌then◌else◌}
use fast_cfs.Auth.Types.{UserInfo, PoolInfo, GrantedInfo, normal, deleted}
use fast_cfs.Auth.Backend.{
  Reply, done, fails, Action, ◌>>=◌, ◌>>◌, pure, DaoPath, home, created_dir, granted_dir,
  created_pool, granted_pool, Xattr, Backend,
}

abbrev is_enoent : Errno → Bool
is_enoent enoent = true
is_enoent _ = false

abbrev is_eexist : Errno → Bool
is_eexist eexist = true
is_eexist _ = false

-- Goes on with `k` after an error that the test names.
abbrev recover : {S A : Type 0} → (Errno → Bool) → Action S A → Reply A × S → Reply A × S
recover test k (done a, s) = (done a, s)
recover test k (fails e, s) = if test e then k s else (fails e, s)

abbrev catch : {S A : Type 0} → Action S A → (Errno → Bool) → Action S A → Action S A
catch m test k s = recover test k (m s)

module _ {S : Type 0} (env : Backend S) where
  make_subdir : DaoPath → Action S Unit
  make_subdir path = catch (do env.create_dentry path; pure tt) is_eexist (pure tt)

  unfoldable pub user_make_subdir : DaoPath → Bool → Action S Unit
  unfolding make_subdir
  user_make_subdir path true =
      catch (do env.lookup_inode path; pure tt) is_enoent (make_subdir path)
  user_make_subdir path false = make_subdir path

  -- The inode of the home, and whether it was there.
  home_inode : ℕ → Action S (ℕ × Bool)
  home_inode name =
      catch (do inode ← env.create_dentry (home name); pure (inode, false)) is_eexist
        (do inode ← env.lookup_inode (home name); pure (inode, true))

  unfoldable pub dao_user_create : UserInfo → Action S ℕ
  unfolding home_inode user_make_subdir
  dao_user_create user = do
    found ← home_inode user.name
    user_make_subdir (created_dir user.name) found.1
    user_make_subdir (granted_dir user.name) found.1
    env.set_xattr found.0 (Xattr.passwd user.passwd)
    env.set_xattr found.0 (Xattr.priv user.priv)
    env.set_xattr found.0 (Xattr.status normal)
    pure found.0

  unfoldable pub dao_user_update_priv : ℕ → ℕ → Action S Unit
  dao_user_update_priv user_id priv = env.set_xattr user_id (Xattr.priv priv)

  unfoldable pub dao_user_update_passwd : ℕ → Option ℕ → Action S Unit
  dao_user_update_passwd user_id passwd = env.set_xattr user_id (Xattr.passwd passwd)

  unfoldable pub dao_user_remove : ℕ → Action S Unit
  dao_user_remove user_id = env.set_xattr user_id (Xattr.status deleted)

  unfoldable pub dao_spool_create : ℕ → PoolInfo → Action S ℕ
  dao_spool_create username spool = do
    let path = created_pool username spool.name
    inode ← catch (env.create_dentry path) is_eexist (env.lookup_inode path)
    env.set_xattr inode (Xattr.quota spool.quota)
    env.set_xattr inode (Xattr.status normal)
    pure inode

  unfoldable pub dao_spool_remove : ℕ → Action S Unit
  dao_spool_remove spool_id = env.set_xattr spool_id (Xattr.status deleted)

  unfoldable pub dao_spool_set_quota : ℕ → ℤ → Action S Unit
  dao_spool_set_quota spool_id quota = env.set_xattr spool_id (Xattr.quota quota)

  unfoldable pub dao_granted_create : ℕ → GrantedInfo → Action S ℕ
  dao_granted_create username granted = do
    let path = granted_pool username granted.pool_id
    inode ← catch (env.lookup_inode path) is_enoent (env.create_dentry path)
    env.set_xattr inode (Xattr.fdir granted.privs.fdir)
    env.set_xattr inode (Xattr.fstore granted.privs.fstore)
    pure inode

  unfoldable pub dao_granted_remove : ℕ → ℕ → Action S Unit
  dao_granted_remove username pool_id = env.remove_dentry (granted_pool username pool_id)
