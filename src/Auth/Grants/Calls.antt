-- ===== src/Auth/Grants/Calls.antt =====
-- The grant of a pool, its withdrawal, and the privileges that a login then has.
use fast_cfs.Base.{
  ℕ, ◌≤◌, suc, ◌≡◌, Bool, true, false, Option, none, some, Status, ok, err, if◌then◌else◌, ◌==◌,
  refl, ap, ◌∙◌, arith,
}
use fast_cfs.Auth.Types.{GrantedInfo}
use fast_cfs.Auth.Backend.{Reply, done, fails, Backend, Skiplist, IsSkiplist}
use fast_cfs.Auth.Dao.{dao_granted_create}
use fast_cfs.Auth.Db.{Db, set_user, set_grant, write, granted_pool_get, get_spool_by_id, call_back}
use fast_cfs.Auth.Grants.{
  set_granted, insert_done, grant_insert, grant_store, grant_fill, grant_alloc, grant_changed,
}
use fast_cfs.Auth.Grants.Rights.{GrantInv, Grants, Redraft, redraft-Grants}
use fast_cfs.Auth.Grants.Relist.{write-Relisted, linked-Grants}

module _ {S T : Type 0} (env : Backend S) (sl : Skiplist T) (laws : IsSkiplist sl) (db : Db S T)
    (u : ℕ) (granted : GrantedInfo) (v : GrantInv sl db) where
  insert_done-Grants :
      (d : Db S T) (p : ℕ) (x : Status × T)
      → Redraft db d p (suc p) granted.pool_id granted.privs
      → d.users ≡ db.users
      → db.next_grant ≤ p
      → ((j : ℕ)
          → sl.find x.1 j ≡ (if j == granted.pool_id then some p else granted_pool_get sl db u j))
      → let (c, d') = insert_done env sl d u p x in
        c ≡ ok → Grants sl db d' u granted.pool_id (some granted.privs)
  unfolding insert_done set_user
  insert_done-Grants d p (ok, t) r users fresh look is =
      let d' = set_user d u (record (d.users u) { granted = t }) in
      linked-Grants sl db d' u granted.pool_id v p (suc p) granted.privs
        (record { spools = r.spools; next = r.next; pool = r.pool; at = r.at; others = r.others })
        (write-Relisted sl db d' u granted.pool_id (some p) t look
          (ap (λ us. write us u (record (us u) { granted = t })) users))
        fresh (omega arith)
  insert_done-Grants d p (err e, t) r users fresh look is = cc

  module _ (absent : granted_pool_get sl db u granted.pool_id ≡ none) where
    sp-Redraft :
        (d : Db S T) (p k q : ℕ)
        → Redraft db d p k granted.pool_id granted.privs
        → Redraft db
            (set_grant d p (record (d.grants p) { sp = q }))
            p
            k
            granted.pool_id
            granted.privs
    unfolding set_grant
    sp-Redraft d p k q r = record {
      spools = r.spools;
      next = r.next;
      pool = ground (arith, r.pool);
      at = ground (arith, r.at);
      others = λ i h. ground (arith, r.others i h);
    }

    grant_insert-Grants :
        (d : Db S T) (p : ℕ) (o : Option ℕ)
        → Redraft db d p (suc p) granted.pool_id granted.privs
        → d.users ≡ db.users
        → db.next_grant ≤ p
        → let (c, d') = grant_insert env sl d u p granted.pool_id o in
          c ≡ ok → Grants sl db d' u granted.pool_id (some granted.privs)
    unfolding grant_insert set_grant
    grant_insert-Grants d p (some q) r users fresh is =
        insert_done-Grants (set_grant d p (record (d.grants p) { sp = q })) p
          (sl.insert (d.users u).granted granted.pool_id p) (sp-Redraft d p (suc p) q r) users fresh
          (λ j.
            laws.find-insert (d.users u).granted granted.pool_id p j
              (ap (λ us. sl.find (us u).granted granted.pool_id) users ∙ absent)
            ∙ ap (λ us. if j == granted.pool_id then some p else sl.find (us u).granted j) users)
          is
    grant_insert-Grants d p none r users fresh is = cc

    new_store-Grants :
        (d : Db S T) (p : ℕ) (x : Reply ℕ × S)
        → Redraft db d p (suc p) granted.pool_id granted.privs
        → d.users ≡ db.users
        → db.next_grant ≤ p
        → let (c, d') = grant_store env sl d u p granted true x in
          c ≡ ok → Grants sl db d' u granted.pool_id (some granted.privs)
    unfolding grant_store set_granted set_grant
    new_store-Grants d p (done id, s) r users fresh is =
        let d' = set_granted (record d { ext = s }) p (record (d.grants p).granted { id = id }) in
        grant_insert-Grants d' p (get_spool_by_id sl d' granted.pool_id)
          (record {
            spools = r.spools;
            next = r.next;
            pool = ground (arith, r.pool);
            at = ground (arith, r.at);
            others = λ i h. ground (arith, r.others i h);
          })
          users fresh is
    new_store-Grants d p (fails e, s) r users fresh is = cc

    pub alloc-Grants :
        (x : Bool × S)
        → let (c, _, d') = grant_alloc env sl db u granted true x in
          c ≡ ok → Grants sl db d' u granted.pool_id (some granted.privs)
    unfolding grant_alloc grant_fill set_granted set_grant
    alloc-Grants (true, s) is =
        let p = db.next_grant in
        let d0 : Db S T = record db { ext = s; next_grant = suc p } in
        let info = record (db.grants p).granted {
          pool_id = granted.pool_id;
          privs = granted.privs;
        } in
        let d = set_granted d0 p info in
        new_store-Grants d p (dao_granted_create env (d.users u).user.name info d.ext)
          (record {
            spools = refl;
            next = refl;
            pool = ground arith;
            at = ground arith;
            others = λ i h. ground arith;
          })
          refl (omega arith) is
    alloc-Grants (false, s) is = cc

  module _ (p : ℕ) (found : granted_pool_get sl db u granted.pool_id ≡ some p) where
    pub old_store-Grants :
        (d : Db S T) (x : Reply ℕ × S)
        → Redraft db d p db.next_grant granted.pool_id granted.privs
        → d.users ≡ db.users
        → let (c, d') = grant_changed env sl u p (grant_store env sl d u p granted false x) in
          c ≡ ok → Grants sl db d' u granted.pool_id (some granted.privs)
    unfolding grant_store set_granted set_grant grant_changed call_back
    old_store-Grants d (done id, s) r users is =
        redraft-Grants sl db _ p db.next_grant granted.pool_id granted.privs v
          (record {
            spools = r.spools;
            next = r.next;
            pool = ground (arith, r.pool);
            at = ground (arith, r.at);
            others = λ i h. ground (arith, r.others i h);
          })
          u users found (omega arith)
    old_store-Grants d (fails e, s) r users is = cc
