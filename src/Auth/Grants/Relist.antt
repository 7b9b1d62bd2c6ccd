-- ===== src/Auth/Grants/Relist.antt =====
-- A grant that is put into a list or taken out of it.
use fast_cfs.Base.{
  ==→eq, ℕ, ◌<◌, ◌≤◌, ◌≡◌, Bool, true, false, ◌&&◌, Option, none, some, if◌then◌else◌, ◌==◌, refl,
  ap, ◌∙◌, sym, arith, Bool-cases, inl, inr, ◌⊎◌,
}
use fast_cfs.Auth.Types.{Privileges}
use fast_cfs.Auth.Backend.{Skiplist}
use fast_cfs.Auth.Db.{Db, write, write-same, write-other, granted_pool_get}
use fast_cfs.Auth.Grants.Rights.{
  privs_at, rights, GrantInv, Grants, Redraft, privs-redraft, pool-redraft,
}

module _ {S T : Type 0} (sl : Skiplist T) (db d : Db S T) (u pool_id : ℕ) (o : Option ℕ) where
  -- The lists of `d` are those of `db`, but for one place.
  abbrev pub Relisted : Type 0
  Relisted =
      (w j : ℕ)
      → granted_pool_get sl d w j
        ≡ (if (w == u) && (j == pool_id) then o else granted_pool_get sl db w j)

  module _ (t : T)
      (look : (j : ℕ) → sl.find t j ≡ (if j == pool_id then o else granted_pool_get sl db u j))
      (users : d.users ≡ write db.users u (record (db.users u) { granted = t })) where
    relist_at :
        (w j : ℕ) (b : Bool)
        → (w == u) ≡ b
        → sl.find (write db.users u (record (db.users u) { granted = t }) w).granted j
          ≡ (if b && (j == pool_id) then o else granted_pool_get sl db w j)
    relist_at w j true h =
        ap (λ x. sl.find x.granted j)
          (write-same db.users u (record (db.users u) { granted = t }) w h)
        ∙ look j
        ∙ ap (λ i. if j == pool_id then o else granted_pool_get sl db i j) (sym (==→eq w u h))
    relist_at w j false h =
        ap (λ x. sl.find x.granted j)
          (write-other db.users u (record (db.users u) { granted = t }) w h)

    pub write-Relisted : Relisted
    write-Relisted w j = ap (λ us. sl.find (us w).granted j) users ∙ relist_at w j (w == u) refl

module _ {S T : Type 0} (sl : Skiplist T) (db d : Db S T) (u pool_id : ℕ) (v : GrantInv sl db) where
  module _ (p k : ℕ) (privs : Privileges) (r : Redraft db d p k pool_id privs)
      (listed : Relisted sl db d u pool_id (some p)) (fresh : db.next_grant ≤ p)
      (more : p < k) where
    linked-cases :
        (w j q : ℕ)
        → granted_pool_get sl d w j ≡ some q
        → ((w ≡ u) × (j ≡ pool_id) × (q ≡ p))
          ⊎ ((granted_pool_get sl db w j ≡ some q) × (q < db.next_grant))
    linked-cases w j q h = elim (Bool-cases ((w == u) && (j == pool_id))) [
      | inl e ↦ inl (ground (arith, e), ground (arith, e), ground (arith, e, listed w j))
      | inr e ↦
          let old : granted_pool_get sl db w j ≡ some q = ground (arith, e, listed w j) in
          inr (old, v.below w j q old)
    ]

    linked-at :
        (w j : ℕ) (o : Option ℕ)
        → granted_pool_get sl db w j ≡ o
        → privs_at d (if (w == u) && (j == pool_id) then some p else o)
          ≡ (if (w == u) && (j == pool_id) then some privs else privs_at db o)
    linked-at w j none e = ground (arith, r.at)
    linked-at w j (some q) e =
        ground (arith, r.at, v.below w j q e, privs-redraft sl db d p k pool_id privs v r q)

    apart_of :
        (w w' i j q : ℕ)
        → ((w ≡ u) × (i ≡ pool_id) × (q ≡ p))
          ⊎ ((granted_pool_get sl db w i ≡ some q) × (q < db.next_grant))
        → ((w' ≡ u) × (j ≡ pool_id) × (q ≡ p))
          ⊎ ((granted_pool_get sl db w' j ≡ some q) × (q < db.next_grant))
        → w ≡ w'
    apart_of w w' i j q (inl a) (inl b) = ground (arith, a, b)
    apart_of w w' i j q (inl a) (inr b) = ground (arith, a, b)
    apart_of w w' i j q (inr a) (inl b) = ground (arith, a, b)
    apart_of w w' i j q (inr a) (inr b) = v.apart w w' i j q a.0 b.0

    pub linked-Grants : Grants sl db d u pool_id (some privs)
    unfolding rights
    linked-Grants = record {
      spools = r.spools;
      inv = record {
        keyed = λ w j q h. elim (linked-cases w j q h) [
          | inl e ↦ ground (arith, r.pool, e)
          | inr e ↦ ground (arith, pool-redraft sl db d p k pool_id privs v r q, v.keyed w j q)
        ];
        below = λ w j q h. elim (linked-cases w j q h) [
          | inl e ↦ ground (arith, r.next, e)
          | inr e ↦ ground (arith, r.next, e)
        ];
        apart =
            λ w w' i j q h h'. apart_of w w' i j q (linked-cases w i q h) (linked-cases w' j q h');
      };
      agrees =
          λ w j. ap (privs_at d) (listed w j) ∙ linked-at w j (granted_pool_get sl db w j) refl;
    }

  module _ (spools : d.spools ≡ db.spools) (same : d.grants ≡ db.grants)
      (next : d.next_grant ≡ db.next_grant) (listed : Relisted sl db d u pool_id none) where
    old-listed :
        (w j q : ℕ) → granted_pool_get sl d w j ≡ some q → granted_pool_get sl db w j ≡ some q
    old-listed w j q h = ground (arith, listed w j)

    removed-at :
        (w j : ℕ) (o : Option ℕ)
        → privs_at d (if (w == u) && (j == pool_id) then none else o)
          ≡ (if (w == u) && (j == pool_id) then none else privs_at db o)
    removed-at w j none = ground arith
    removed-at w j (some q) = ground (arith, same)

    pub removed-Grants : Grants sl db d u pool_id none
    unfolding rights
    removed-Grants = record {
      spools = spools;
      inv = record {
        keyed =
            λ w j q h. ap (λ g. (g q).granted.pool_id) same ∙ v.keyed w j q (old-listed w j q h);
        below = λ w j q h. ground (arith, next, v.below w j q (old-listed w j q h));
        apart = λ w w' i j q h h'. v.apart w w' i j q (old-listed w i q h) (old-listed w' j q h');
      };
      agrees = λ w j. ap (privs_at d) (listed w j) ∙ removed-at w j (granted_pool_get sl db w j);
    }
