-- ===== src/Auth/Grants/Rights.antt =====
-- The privileges that the lists of granted pools hold.
use fast_cfs.Base.{
  ℕ, ◌<◌, ◌≤◌, ◌≡◌, ◌≢◌, ◌&&◌, Option, none, some, if◌then◌else◌, ◌==◌, refl, ap, ◌∙◌, sym, arith,
  Bool-cases, inl, inr,
}
use fast_cfs.Auth.Types.{Privileges}
use fast_cfs.Auth.Backend.{Skiplist}
use fast_cfs.Auth.Db.{Db, granted_pool_get}

module _ {S T : Type 0} where
  abbrev pub privs_at : Db S T → Option ℕ → Option Privileges
  privs_at db none = none
  privs_at db (some p) = some (db.grants p).granted.privs

  module _ (sl : Skiplist T) where
    -- What a user is granted on the pool of an id.
    unfoldable pub rights : Db S T → ℕ → ℕ → Option Privileges
    rights db u pool_id = privs_at db (granted_pool_get sl db u pool_id)

    -- A list finds a grant by its pool, and no grant is in the lists of two users.
    pub record GrantInv (db : Db S T) : Type 0 where
      pub keyed :
          (u j p : ℕ) → granted_pool_get sl db u j ≡ some p → (db.grants p).granted.pool_id ≡ j
      pub below : (u j p : ℕ) → granted_pool_get sl db u j ≡ some p → p < db.next_grant
      pub apart :
          (u w i j p : ℕ)
          → granted_pool_get sl db u i ≡ some p
          → granted_pool_get sl db w j ≡ some p
          → u ≡ w

    -- `db'` grants `new` to one user on one pool, and else what `db` does.
    pub record Grants (db db' : Db S T) (u pool_id : ℕ) (new : Option Privileges) : Type 0 where
      pub spools : db'.spools ≡ db.spools
      pub inv : GrantInv db'
      pub agrees :
          (w j : ℕ) → rights db' w j ≡ (if (w == u) && (j == pool_id) then new else rights db w j)

  -- `d` has at `p` a grant of `privs` on a pool, and else the grants of `db`.
  pub record Redraft (db d : Db S T) (p k pool_id : ℕ) (privs : Privileges) : Type 0 where
    pub spools : d.spools ≡ db.spools
    pub next : d.next_grant ≡ k
    pub pool : (d.grants p).granted.pool_id ≡ pool_id
    pub at : (d.grants p).granted.privs ≡ privs
    pub others : (q : ℕ) → q ≢ p → d.grants q ≡ db.grants q

module _ {S T : Type 0} (sl : Skiplist T) (db d : Db S T) (p k pool_id : ℕ) (privs : Privileges)
    (v : GrantInv sl db) (r : Redraft db d p k pool_id privs) where
  pub privs-redraft :
      (q : ℕ) → (d.grants q).granted.privs ≡ (if q == p then privs else (db.grants q).granted.privs)
  privs-redraft q = elim (Bool-cases (q == p)) [
    | inl same ↦ ground (arith, r.at)
    | inr other ↦ ground (arith, r.others q)
  ]

  pub pool-redraft :
      (q : ℕ)
      → (d.grants q).granted.pool_id ≡ (if q == p then pool_id else (db.grants q).granted.pool_id)
  pool-redraft q = elim (Bool-cases (q == p)) [
    | inl same ↦ ground (arith, r.pool)
    | inr other ↦ ground (arith, r.others q)
  ]

  module _ (u : ℕ) (users : d.users ≡ db.users)
      (found : granted_pool_get sl db u pool_id ≡ some p) where
    before : (w j q : ℕ) → granted_pool_get sl d w j ≡ some q → granted_pool_get sl db w j ≡ some q
    before w j q h = ap (λ us. sl.find (us w).granted j) (sym users) ∙ h

    redraft-at :
        (w j : ℕ) (o : Option ℕ)
        → granted_pool_get sl db w j ≡ o
        → privs_at d o ≡ (if (w == u) && (j == pool_id) then some privs else privs_at db o)
    redraft-at w j none e = ground arith
    redraft-at w j (some q) e =
        rw (privs-redraft q)
          (ground (arith, v.keyed w j q e, v.keyed u pool_id p found, v.apart w u j pool_id p))

    -- A grant that is listed already.
    pub redraft-Grants : db.next_grant ≤ k → Grants sl db d u pool_id (some privs)
    unfolding rights
    redraft-Grants le = record {
      spools = r.spools;
      inv = record {
        keyed = λ w j q h.
            ground
              (arith, pool-redraft q, v.keyed w j q (before w j q h), v.keyed u pool_id p found);
        below = λ w j q h. ground (arith, r.next, v.below w j q (before w j q h));
        apart = λ w w' i j q h h'. v.apart w w' i j q (before w i q h) (before w' j q h');
      };
      agrees = λ w j.
          ap (λ us. privs_at d (sl.find (us w).granted j)) users
          ∙ redraft-at w j (granted_pool_get sl db w j) refl;
    }
