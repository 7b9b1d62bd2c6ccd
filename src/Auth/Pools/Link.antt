-- ===== src/Auth/Pools/Link.antt =====
-- A new storage pool, and its places in the lists.
use fast_cfs.Base.{
  ==→eq, ap₂, ℕ, ◌≡◌, ◌≢◌, Bool, true, false, none, some, Status, ok, err, if◌then◌else◌, ◌==◌,
  refl, ap, ◌∙◌, sym, arith, Option-cases, inl, inr,
}
use fast_cfs.Auth.Types.{PoolInfo, DbUser}
use fast_cfs.Auth.Backend.{Backend, Skiplist, IsSkiplist}
use fast_cfs.Auth.Db.{
  Db, write, write-same, write-other, set_user, user_spool_get, get_spool_by_name, get_spool_by_id,
}
use fast_cfs.Auth.Pools.{
  free_spool, insert_by_name, spool_global_skiplists_insert, insert_created, spool_finish,
}

module _ {S T : Type 0} (sl : Skiplist T) where
  -- `db'` is `db` with a new pool at `p`, that its owner and the list of all names find.
  pub record Created (db db' : Db S T) (u p : ℕ) (pool : PoolInfo) : Type 0 where
    pub by_name :
        (j : ℕ)
        → get_spool_by_name sl db' j
          ≡ (if j == pool.name then some p else get_spool_by_name sl db j)
    pub by_owner :
        (w j : ℕ)
        → user_spool_get sl db' w j ≡ (
            if w == u
            then (if j == pool.name then some p else user_spool_get sl db w j)
            else user_spool_get sl db w j)
    pub by_id : get_spool_by_id sl db' (db'.spools p).pool.id ≡ some p
    pub owner : (db'.spools p).owner ≡ u
    pub same_name : (db'.spools p).pool.name ≡ pool.name
    pub quota : (db'.spools p).pool.quota ≡ pool.quota
    pub status : (db'.spools p).pool.status ≡ pool.status
    pub others : (q : ℕ) → q ≢ p → db'.spools q ≡ db.spools q

  -- No list has changed.
  pub record Unlinked (db db' : Db S T) : Type 0 where
    pub by_name : db'.by_name ≡ db.by_name
    pub by_id : db'.by_id ≡ db.by_id
    pub users : db'.users ≡ db.users

  abbrev pub Outcome : Db S T → Db S T → ℕ → ℕ → PoolInfo → Status → Type 0
  Outcome db db' u p pool ok = Created db db' u p pool
  Outcome db db' u p pool (err e) = Unlinked db db'

  ok-Outcome :
      {db db' : Db S T} {u p : ℕ} {pool : PoolInfo} {c : Status}
      → c ≡ ok
      → Created db db' u p pool
      → Outcome db db' u p pool c
  ok-Outcome {c = ok} h made = made
  ok-Outcome {c = err e} h made = cc

module _ {S T : Type 0} (env : Backend S) (sl : Skiplist T) (laws : IsSkiplist sl) (db : Db S T)
    (u : ℕ) (pool : PoolInfo) (no_name : get_spool_by_name sl db pool.name ≡ none)
    (no_pool : user_spool_get sl db u pool.name ≡ none) where
  -- A state in which the pool is filled and not linked.
  pub record Ready (d : Db S T) (p : ℕ) : Type 0 where
    pub by_name : d.by_name ≡ db.by_name
    pub by_id : d.by_id ≡ db.by_id
    pub users : d.users ≡ db.users
    pub owner : (d.spools p).owner ≡ u
    pub same_name : (d.spools p).pool.name ≡ pool.name
    pub quota : (d.spools p).pool.quota ≡ pool.quota
    pub status : (d.spools p).pool.status ≡ pool.status
    pub others : (q : ℕ) → q ≢ p → d.spools q ≡ db.spools q

  module _ (d : Db S T) (p : ℕ) (r : Ready d p) where
    name_absent : sl.find d.by_name (d.spools p).pool.name ≡ none
    name_absent = ap₂ sl.find r.by_name r.same_name ∙ no_name

    created_absent : sl.find (d.users u).created (d.spools p).pool.name ≡ none
    created_absent = ap₂ (λ us n. sl.find (us u).created n) r.users r.same_name ∙ no_pool

    created_self :
        (j : ℕ)
        → sl.find (sl.insert (d.users u).created (d.spools p).pool.name p).1 j
          ≡ (if j == pool.name then some p else user_spool_get sl db u j)
    created_self j =
        laws.find-insert (d.users u).created (d.spools p).pool.name p j created_absent
        ∙ ap₂ (λ n us. if j == n then some p else sl.find (us u).created j) r.same_name r.users

    -- the user with the longer list
    longer : DbUser T
    longer = record (d.users u) {
      created = (sl.insert (d.users u).created (d.spools p).pool.name p).1;
    }

    owner_lookup :
        (w j : ℕ) (b : Bool)
        → (w == u) ≡ b
        → sl.find (write d.users u longer w).created j ≡ (
            if b
            then (if j == pool.name then some p else user_spool_get sl db w j)
            else user_spool_get sl db w j)
    unfolding longer
    owner_lookup w j true h =
        ap (λ x. sl.find x.created j) (write-same d.users u longer w h)
        ∙ created_self j
        ∙ ap (λ i. if j == pool.name then some p else user_spool_get sl db i j) (sym (==→eq w u h))
    owner_lookup w j false h =
        ap (λ x. sl.find x.created j) (write-other d.users u longer w h)
        ∙ ap (λ us. sl.find (us w).created j) r.users

    linked-Created :
        (t : T)
        → sl.find t (d.spools p).pool.id ≡ some p
        → let name = (d.spools p).pool.name in
          let d' = record d { by_id = t; by_name = (sl.insert d.by_name name p).1 } in
          Created sl db
            (set_user d' u
              (record (d'.users u) { created = (sl.insert (d.users u).created name p).1 }))
            u
            p
            pool
    unfolding set_user longer
    linked-Created t found = record {
      by_name = λ j.
          laws.find-insert d.by_name (d.spools p).pool.name p j name_absent
          ∙ ap₂ (λ n t. if j == n then some p else sl.find t j) r.same_name r.by_name;
      by_owner = λ w j. owner_lookup w j (w == u) refl;
      by_id = found;
      owner = r.owner;
      same_name = r.same_name;
      quota = r.quota;
      status = r.status;
      others = r.others;
    }

    link-Outcome :
        (x : Status × T)
        → x.0 ≡ ok
        → sl.find x.1 (d.spools p).pool.id ≡ some p
        → let (c, d') =
            spool_finish env sl p (insert_created env sl u p (insert_by_name env sl d p x)) in
          (c ≡ ok) × Created sl db d' u p pool
    unfolding insert_created insert_by_name spool_finish
    link-Outcome (ok, t) h found =
        rw
          (
            laws.insert_absent d.by_name (d.spools p).pool.name p name_absent,
            laws.insert_absent (d.users u).created (d.spools p).pool.name p created_absent,
          )
          (refl, linked-Created t found)
    link-Outcome (err e, t) h found = cc

    pub finish-Outcome :
        let (c, d') =
          spool_finish env sl p
            (insert_created env sl u p (spool_global_skiplists_insert env sl d p)) in
        Outcome sl db d' u p pool c
    unfolding spool_global_skiplists_insert insert_by_name insert_created spool_finish free_spool
    finish-Outcome = elim (Option-cases (sl.find d.by_id (d.spools p).pool.id)) [
      | inl h ↦
          let (is, made) =
            link-Outcome (sl.insert d.by_id (d.spools p).pool.id p)
              (laws.insert_absent d.by_id (d.spools p).pool.id p h)
              (laws.find-insert d.by_id (d.spools p).pool.id p (d.spools p).pool.id h
                ∙ ground arith) in
          ok-Outcome sl is made
      | inr (q, h) ↦
          rw (laws.insert_present d.by_id (d.spools p).pool.id p q h)
            (record { by_name = r.by_name; by_id = r.by_id; users = r.users })
    ]
