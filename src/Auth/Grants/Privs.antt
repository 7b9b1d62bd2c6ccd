-- ===== src/Auth/Grants/Privs.antt =====
-- The privileges that a login finds after a grant and after a withdrawal.
use fast_cfs.Base.{
  ◌∷◌, ℕ, ◌≡◌, true, false, ◌&&◌, Option, none, some, Status, ok, err, if◌then◌else◌, ◌==◌, refl,
  ap, ap₂, ◌∙◌, arith, Bool-cases, inl, inr, enoent,
}
use mathlib.Core.Path.{fun_ext}
use fast_cfs.Auth.Types.{
  GrantedInfo, Privileges, access_all, access_none, pool_priv_changed, normal,
}
use fast_cfs.Auth.Backend.{Reply, done, fails, Backend, Skiplist, IsSkiplist}
use fast_cfs.Auth.Dao.{dao_granted_create, dao_granted_remove}
use fast_cfs.Auth.Db.{Db, set_user, set_grant, user_get, granted_pool_get, call_back}
use fast_cfs.Auth.Users.{adb_user_get_normal}
use fast_cfs.Auth.Grants.{
  set_granted, free_grant, grant_fill, granted_pool_create, grant_changed, grant_to, grant_found,
  adb_granted_create, withdraw_done, withdraw_from, withdraw_found, adb_granted_remove, privs_of,
  adb_granted_privs_get, same_privs,
}
use fast_cfs.Auth.Grants.Rights.{privs_at, rights, GrantInv, Grants, redraft-Grants}
use fast_cfs.Auth.Grants.Relist.{write-Relisted, removed-Grants}
use fast_cfs.Auth.Grants.Calls.{alloc-Grants, old_store-Grants}

same_privs→eq : (a b : Privileges) → same_privs a b ≡ true → a ≡ b
same_privs→eq a b h = ground arith

module _ {S T : Type 0} (env : Backend S) (sl : Skiplist T) (laws : IsSkiplist sl) (db : Db S T)
    (u : ℕ) (granted : GrantedInfo) (v : GrantInv sl db) where
  keep-Grants :
      (p : ℕ)
      → granted_pool_get sl db u granted.pool_id ≡ some p
      → (db.grants p).granted.privs ≡ granted.privs
      → Grants sl db db u granted.pool_id (some granted.privs)
  keep-Grants p found same =
      redraft-Grants sl db db p db.next_grant granted.pool_id granted.privs v
        (record {
          spools = refl;
          next = refl;
          pool = v.keyed u granted.pool_id p found;
          at = same;
          others = λ q h. refl;
        })
        u refl found (omega arith)

  change-Grants :
      (p : ℕ)
      → granted_pool_get sl db u granted.pool_id ≡ some p
      → let (c, d') = grant_changed env sl u p (grant_fill env sl db u p granted false true) in
        c ≡ ok → Grants sl db d' u granted.pool_id (some granted.privs)
  unfolding grant_fill set_granted set_grant
  change-Grants p found is =
      let info = record (db.grants p).granted {
        pool_id = granted.pool_id;
        privs = granted.privs;
      } in
      let d = set_granted db p info in
      old_store-Grants env sl laws db u granted v p found d
        (dao_granted_create env (d.users u).user.name info d.ext)
        (record {
          spools = refl;
          next = refl;
          pool = ground arith;
          at = ground arith;
          others = λ i h. ground arith;
        })
        refl is

  grant_to-Grants :
      (o : Option ℕ)
      → granted_pool_get sl db u granted.pool_id ≡ o
      → let (c, d') = grant_to env sl db u granted o in
        c ≡ ok → Grants sl db d' u granted.pool_id (some granted.privs)
  unfolding grant_to granted_pool_create
  grant_to-Grants none e = alloc-Grants env sl laws db u granted v e (env.alloc_object db.ext)
  grant_to-Grants (some p) e =
      elim (Bool-cases (same_privs (db.grants p).granted.privs granted.privs)) [
        | inl h ↦ rw h λ is. keep-Grants p e (same_privs→eq _ _ h)
        | inr h ↦ rw h λ is. change-Grants p e is
      ]

module _ {S T : Type 0} (env : Backend S) (sl : Skiplist T) (laws : IsSkiplist sl) (db : Db S T)
    (u pool_id : ℕ) (v : GrantInv sl db) where
  withdraw_done-Grants :
      (p : ℕ) (x : Reply Unit × S)
      → granted_pool_get sl db u pool_id ≡ some p
      → let (c, d') = withdraw_done env sl db u p x in c ≡ ok → Grants sl db d' u pool_id none
  unfolding withdraw_done call_back set_user free_grant
  withdraw_done-Grants p (done _, s) found is =
      let key = (db.grants p).granted.pool_id in
      let t = sl.delete (db.users u).granted key in
      let d' : Db S T =
        record (free_grant (set_user db u (record (db.users u) { granted = t })) p) {
          ext = s;
          calls = pool_priv_changed (db.users u).user.id key access_none ∷ db.calls;
        } in
      removed-Grants sl db d' u pool_id v refl refl refl (
        write-Relisted sl db d' u pool_id none t
          (λ j.
            laws.find-delete (db.users u).granted key j
            ∙ ap (λ k. if j == k then none else granted_pool_get sl db u j)
                (v.keyed u pool_id p found))
          refl)
  withdraw_done-Grants p (fails e, s) found is = cc

  withdraw_from-Grants :
      (username : ℕ) (o : Option ℕ)
      → granted_pool_get sl db u pool_id ≡ o
      → let (c, d') = withdraw_from env sl db username u pool_id o in
        c ≡ ok → Grants sl db d' u pool_id none
  unfolding withdraw_from
  withdraw_from-Grants username none e is = cc
  withdraw_from-Grants username (some p) e is =
      withdraw_done-Grants p (dao_granted_remove env username pool_id db.ext) e is

abbrev privs_or_none : Option Privileges → Status × Privileges
privs_or_none none = (err enoent, access_none)
privs_or_none (some x) = (ok, x)

of_at :
    {S T : Type 0} (sl : Skiplist T) (db : Db S T) (o : Option ℕ)
    → privs_of sl db o ≡ privs_or_none (privs_at db o)
unfolding privs_of
of_at sl db none = refl
of_at sl db (some p) = refl

-- What a login is granted, from what the lists hold.
privs-rights :
    {S T : Type 0} (sl : Skiplist T) (db : Db S T) (w q : ℕ)
    → adb_granted_privs_get sl db w q ≡ (
        if (db.spools q).owner == w
        then (ok, access_all)
        else privs_or_none (rights sl db w (db.spools q).pool.id))
unfolding adb_granted_privs_get rights privs_of
privs-rights sl db w q =
    ap (λ x. if (db.spools q).owner == w then (ok, access_all) else x)
      (of_at sl db (granted_pool_get sl db w (db.spools q).pool.id))

module _ {S T : Type 0} (env : Backend S) (sl : Skiplist T) (laws : IsSkiplist sl) (db : Db S T)
    (username u : ℕ) (v : GrantInv sl db) (found : user_get sl db username ≡ some u)
    (live : (db.users u).user.status ≡ normal) where
  privs-Grants :
      (d' : Db S T) (pool_id : ℕ) (new : Option Privileges)
      → Grants sl db d' u pool_id new
      → (w q : ℕ)
      → adb_granted_privs_get sl d' w q ≡ (
          if (db.spools q).owner == w
          then (ok, access_all)
          else if (w == u) && ((db.spools q).pool.id == pool_id)
          then privs_or_none new
          else adb_granted_privs_get sl db w q)
  privs-Grants d' pool_id new g w q =
      privs-rights sl d' w q
      ∙ ap₂
          (λ sps f.
            if (sps q).owner == w then (ok, access_all) else privs_or_none (f (sps q).pool.id))
          g.spools (fun_ext (g.agrees w))
      ∙ ground (arith, privs-rights sl db w q)

  create-Grants :
      (granted : GrantedInfo)
      → let (c, d') = adb_granted_create env sl db username granted in
        c ≡ ok → Grants sl db d' u granted.pool_id (some granted.privs)
  unfolding adb_granted_create grant_found
  create-Grants granted =
      rw (adb_user_get_normal env sl db username u found live)
        (grant_to-Grants env sl laws db u granted v (granted_pool_get sl db u granted.pool_id) refl)

  remove-Grants :
      (pool_id : ℕ)
      → let (c, d') = adb_granted_remove env sl db username pool_id in
        c ≡ ok → Grants sl db d' u pool_id none
  unfolding adb_granted_remove withdraw_found
  remove-Grants pool_id = rw (adb_user_get_normal env sl db username u found live) (
      withdraw_from-Grants env sl laws db u pool_id v username (granted_pool_get sl db u pool_id)
        refl)

  -- After a normal user has been granted a pool, whether new or with changed privileges, a login
  -- of that user with the pool has exactly the granted privileges; the owner of a pool has all,
  -- and every other user and pool is as before.
  pub adb_granted_create-privs :
      (granted : GrantedInfo)
      → (adb_granted_create env sl db username granted).0 ≡ ok
      → (w q : ℕ)
      → adb_granted_privs_get sl (adb_granted_create env sl db username granted).1 w q ≡ (
          if (db.spools q).owner == w
          then (ok, access_all)
          else if (w == u) && ((db.spools q).pool.id == granted.pool_id)
          then (ok, granted.privs)
          else adb_granted_privs_get sl db w q)
  adb_granted_create-privs granted is =
      privs-Grants (adb_granted_create env sl db username granted).1 granted.pool_id
        (some granted.privs) (create-Grants granted is)

  -- After a grant has been withdrawn from a normal user, a login of that user with the pool is
  -- refused; the owner of a pool keeps all privileges, and every other user and pool is as before.
  pub adb_granted_remove-privs :
      (pool_id : ℕ)
      → (adb_granted_remove env sl db username pool_id).0 ≡ ok
      → (w q : ℕ)
      → adb_granted_privs_get sl (adb_granted_remove env sl db username pool_id).1 w q ≡ (
          if (db.spools q).owner == w
          then (ok, access_all)
          else if (w == u) && ((db.spools q).pool.id == pool_id)
          then (err enoent, access_none)
          else adb_granted_privs_get sl db w q)
  adb_granted_remove-privs pool_id is =
      privs-Grants (adb_granted_remove env sl db username pool_id).1 pool_id none
        (remove-Grants pool_id is)
