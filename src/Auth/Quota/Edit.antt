-- ===== src/Auth/Quota/Edit.antt =====
-- The change of one storage pool, and who is told of its availability.
use fast_cfs.Base.{
  ==→eq, subst, ℕ, ◌<◌, ◌≡◌, ◌≢◌, Bool, some, List, [], ◌∷◌, if◌then◌else◌, ◌==◌, ap, ◌∙◌, sym,
  arith, Bool-cases, inl, inr,
}
use fast_cfs.Auth.Types.{
  PoolInfo, is_available, Callback, user_priv_changed, pool_priv_changed, pool_quota_avail_changed,
}
use fast_cfs.Auth.Backend.{Skiplist}
use fast_cfs.Auth.Db.{Db, user_spool_get, get_spool_by_name, get_spool_by_id}
use fast_cfs.Auth.Pools.{same_bool}

-- Every list finds a pool by the key that it has, and a user's list has only pools of the user
-- that the list of all names has too.
pub record PoolInv {S T : Type 0} (sl : Skiplist T) (db : Db S T) : Type 0 where
  pub named : (n p : ℕ) → get_spool_by_name sl db n ≡ some p → (db.spools p).pool.name ≡ n
  pub below : (n p : ℕ) → get_spool_by_name sl db n ≡ some p → p < db.next_spool
  pub ids :
      (n p : ℕ)
      → get_spool_by_name sl db n ≡ some p
      → get_spool_by_id sl db (db.spools p).pool.id ≡ some p
  pub listed : (u n p : ℕ) → user_spool_get sl db u n ≡ some p → get_spool_by_name sl db n ≡ some p
  pub owned : (u n p : ℕ) → user_spool_get sl db u n ≡ some p → (db.spools p).owner ≡ u

-- What the callbacks, the newest first, have told of the availability of a pool; `first` is what
-- was known before them.
unfoldable pub told : List Callback → ℕ → Bool → Bool
told [] id first = first
told (pool_quota_avail_changed i b ∷ cs) id first = if i == id then b else told cs id first
told (user_priv_changed i x ∷ cs) id first = told cs id first
told (pool_priv_changed i j x ∷ cs) id first = told cs id first

-- What is told of every pool is its availability.
abbrev pub Mirrors : {S T : Type 0} → Skiplist T → (ℕ → Bool) → Db S T → Type 0
Mirrors sl first db =
    (n p : ℕ)
    → get_spool_by_name sl db n ≡ some p
    → told db.calls (db.spools p).pool.id (first (db.spools p).pool.id)
      ≡ is_available (db.spools p).pool

unfoldable pub tell : PoolInfo → Bool → List Callback → List Callback
tell pool old cs =
    if same_bool (is_available pool) old
    then cs
    else pool_quota_avail_changed pool.id (is_available pool) ∷ cs

pub told-tell_self :
    (pool : PoolInfo) (old first : Bool) (cs : List Callback)
    → told cs pool.id first ≡ old
    → told (tell pool old cs) pool.id first ≡ is_available pool
unfolding told tell
told-tell_self pool old first cs h = elim (Bool-cases (same_bool (is_available pool) old)) [
  | inl e ↦ ground (arith)
  | inr e ↦ ground (arith)
]

pub told-tell_other :
    (pool : PoolInfo) (old first : Bool) (cs : List Callback) (id : ℕ)
    → pool.id ≢ id
    → told (tell pool old cs) id first ≡ told cs id first
unfolding told tell
told-tell_other pool old first cs id h = ground arith

-- `db'` is `db` with the pool at `p` changed, and the change of its availability told.
pub record Edited {S T : Type 0} (db db' : Db S T) (p : ℕ) (pool : PoolInfo) : Type 0 where
  pub by_name : db'.by_name ≡ db.by_name
  pub by_id : db'.by_id ≡ db.by_id
  pub users : db'.users ≡ db.users
  pub next : db'.next_spool ≡ db.next_spool
  pub at : (db'.spools p).pool ≡ pool
  pub owner : (db'.spools p).owner ≡ (db.spools p).owner
  pub others : (q : ℕ) → q ≢ p → db'.spools q ≡ db.spools q
  pub calls : db'.calls ≡ tell pool (is_available (db.spools p).pool) db.calls

module _ {S T : Type 0} (sl : Skiplist T) (db db' : Db S T) (p : ℕ) (pool : PoolInfo)
    (e : Edited db db' p pool) (same_name : pool.name ≡ (db.spools p).pool.name)
    (same_id : pool.id ≡ (db.spools p).pool.id) (v : PoolInv sl db) where
  name-edited : (q : ℕ) → (db'.spools q).pool.name ≡ (db.spools q).pool.name
  name-edited q = elim (Bool-cases (q == p)) [
    | inl h ↦ ground (arith, e.at)
    | inr h ↦ ground (arith, e.others q)
  ]

  id-edited : (q : ℕ) → (db'.spools q).pool.id ≡ (db.spools q).pool.id
  id-edited q = elim (Bool-cases (q == p)) [
    | inl h ↦ ground (arith, e.at)
    | inr h ↦ ground (arith, e.others q)
  ]

  owner-edited : (q : ℕ) → (db'.spools q).owner ≡ (db.spools q).owner
  owner-edited q = elim (Bool-cases (q == p)) [
    | inl h ↦ ground (arith, e.owner)
    | inr h ↦ ground (arith, e.others q)
  ]

  by_name_before :
      (n q : ℕ) → get_spool_by_name sl db' n ≡ some q → get_spool_by_name sl db n ≡ some q
  by_name_before n q h = ap (λ t. sl.find t n) (sym e.by_name) ∙ h

  created_before :
      (u n q : ℕ) → user_spool_get sl db' u n ≡ some q → user_spool_get sl db u n ≡ some q
  created_before u n q h = ap (λ us. sl.find (us u).created n) (sym e.users) ∙ h

  pub edit-PoolInv : PoolInv sl db'
  edit-PoolInv = record {
    named = λ n q h. name-edited q ∙ v.named n q (by_name_before n q h);
    below = λ n q h. ground (arith, e.next, v.below n q (by_name_before n q h));
    ids = λ n q h.
        ap (λ t. sl.find t (db'.spools q).pool.id) e.by_id
        ∙ ap (sl.find db.by_id) (id-edited q)
        ∙ v.ids n q (by_name_before n q h);
    listed = λ u n q h. ap (λ t. sl.find t n) e.by_name ∙ v.listed u n q (created_before u n q h);
    owned = λ u n q h. owner-edited q ∙ v.owned u n q (created_before u n q h);
  }

  module _ (first : ℕ → Bool) (m : ℕ) (linked : get_spool_by_name sl db m ≡ some p)
      (mirrors : Mirrors sl first db) where
    mirror_self : told db'.calls pool.id (first pool.id) ≡ is_available pool
    mirror_self =
        ap (λ cs. told cs pool.id (first pool.id)) e.calls
        ∙ told-tell_self pool (is_available (db.spools p).pool) (first pool.id) db.calls
            (ap (λ i. told db.calls i (first i)) same_id ∙ mirrors m p linked)

    ids_differ :
        (n q : ℕ) → get_spool_by_name sl db n ≡ some q → q ≢ p → pool.id ≢ (db.spools q).pool.id
    ids_differ n q h ne same =
        let found =
          sym (v.ids n q h) ∙ ap (sl.find db.by_id) (sym same ∙ same_id) ∙ v.ids m p linked in
        let same_pool : q ≡ p = cc in ne same_pool

    mirror_other :
        (n q : ℕ)
        → get_spool_by_name sl db n ≡ some q
        → q ≢ p
        → told db'.calls (db.spools q).pool.id (first (db.spools q).pool.id)
          ≡ is_available (db.spools q).pool
    mirror_other n q h ne =
        ap (λ cs. told cs (db.spools q).pool.id (first (db.spools q).pool.id)) e.calls
        ∙ told-tell_other pool (is_available (db.spools p).pool) (first (db.spools q).pool.id)
            db.calls (db.spools q).pool.id (ids_differ n q h ne)
        ∙ mirrors n q h

    pub edit-Mirrors : Mirrors sl first db'
    edit-Mirrors n q h = elim (Bool-cases (q == p)) [
      | inl same ↦
          subst (λ r. told db'.calls r.id (first r.id) ≡ is_available r)
            (sym (ap (λ i. (db'.spools i).pool) (==→eq q p same) ∙ e.at)) mirror_self
      | inr other ↦
          let ne : q ≢ p = λ eq. ground (arith, eq) in
          subst (λ r. told db'.calls r.pool.id (first r.pool.id) ≡ is_available r.pool)
            (sym (e.others q ne)) (mirror_other n q (by_name_before n q h) ne)
    ]
