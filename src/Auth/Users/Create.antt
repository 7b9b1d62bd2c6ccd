-- ===== src/Auth/Users/Create.antt =====
-- `adb_user_create`, against the map that a client sees.
use fast_cfs.Base.{
  enomem, ℕ, ◌≡◌, Option, none, some, Status, ok, err, eexist, refl, ◌∙◌, arith, true, false, suc,
  Bool,
}
use fast_cfs.Auth.Types.{UserInfo, RowStatus, normal, deleted}
use fast_cfs.Auth.Backend.{Reply, done, fails, Backend, Skiplist, IsAllocator, IsSkiplist}
use fast_cfs.Auth.Db.{Db, user_get, set_user, if_normal}
use fast_cfs.Auth.Users.{
  adb_user_create, create_unless, normal_of, user_create, user_alloc, user_named, new_user,
}
use fast_cfs.Auth.Users.Filled.{Filled, user_fill-Filled}
use fast_cfs.Auth.Users.Refine.{view-fresh, inv-fresh, view-linked, inv-linked}
use fast_cfs.Auth.Users.View.{account_of, account_at, view, UserInv, create, after}
use fast_cfs.Auth.Users.Agree.{Refines, row-Refines, same-Refines, ext-Refines}

module _ {S T : Type 0} (env : Backend S) (sl : Skiplist T) (mem : IsAllocator env)
    (laws : IsSkiplist sl) (db : Db S T) (v : UserInv sl db) where
  -- A row that is not normal is filled again.
  refill-Refines :
      (db' : Db S T) (p : ℕ) (user : UserInfo) (r : Status)
      → user_get sl db user.name ≡ some p
      → (db.users p).user.status ≡ deleted
      → Filled sl db db' p db.next_user (db.users p).user user false r
      → Refines sl (create user) db r db'
  unfolding view account_at account_of
  refill-Refines db' p user ok found gone f =
      row-Refines sl db v (create user) ok db' p f.info found f.draft f.list
        (f.same_name ∙ v.named user.name p found) (f.shown refl)
  refill-Refines db' p user (err e) found gone f =
      row-Refines sl db v (create user) (err e) db' p f.info found f.draft f.list
        (f.same_name ∙ v.named user.name p found) (rw (f.kept refl, gone, found) (ground arith))

  -- A new row.
  fresh-Refines :
      (db' : Db S T) (row user : UserInfo) (r : Status)
      → user_get sl db user.name ≡ none
      → row.name ≡ user.name
      → Filled sl db db' db.next_user (suc db.next_user) row user true r
      → Refines sl (create user) db r db'
  unfolding after
  fresh-Refines db' row user ok missing same f = record {
    inv =
        inv-linked sl db db' db.next_user (suc db.next_user) f.info v f.draft laws user.name missing
          f.list (omega arith) (f.same_name ∙ same) (omega arith);
    agrees = λ j. ground (
      arith,
      f.shown refl,
      view-linked sl db db' db.next_user (suc db.next_user) f.info v f.draft laws user.name missing
          f.list (omega arith) j,
    );
  }
  fresh-Refines db' row user (err e) missing same f = record {
    inv =
        inv-fresh sl db db' db.next_user (suc db.next_user) f.info v f.draft f.list (omega arith)
          (omega arith);
    agrees =
        view-fresh sl db db' db.next_user (suc db.next_user) f.info v f.draft f.list (omega arith);
  }

  new-Refines :
      (user : UserInfo) (r : Reply (Option ℕ) × S)
      → r.0 ≡ done (some user.name)
      → user_get sl db user.name ≡ none
      → let (c, _, db') = user_named env sl db user true r in Refines sl (create user) db c db'
  unfolding user_named set_user new_user
  new-Refines user (done str, s) h missing =
      fresh-Refines _ (new_user env sl user.name).user user _ missing refl (
        user_fill-Filled env sl mem db db.next_user (suc db.next_user)
          (new_user env sl user.name).user
          (set_user (record db { ext = s; next_user = suc db.next_user }) db.next_user
            (new_user env sl user.name))
          user true true (record { next = refl; at = ground arith; others = λ q k. ground arith })
          refl)
  new-Refines user (fails e, s) h missing = cc

  alloc-Refines :
      (user : UserInfo) (x : Bool × S)
      → user_get sl db user.name ≡ none
      → let (c, _, db') = user_alloc env sl db user true x in Refines sl (create user) db c db'
  unfolding user_alloc
  alloc-Refines user (true, s) missing =
      new-Refines user (env.alloc_string (some user.name) s)
        (mem.alloc_string_copies (some user.name) s) missing
  alloc-Refines user (false, s) missing = ext-Refines sl db v (create user) enomem s

  create_row-Refines :
      (user : UserInfo) (p : ℕ) (status : RowStatus)
      → user_get sl db user.name ≡ some p
      → (db.users p).user.status ≡ status
      → let (r, db') = create_unless env sl db user (some p) (if_normal status p) in
        Refines sl (create user) db r db'
  unfolding create_unless if_normal user_create
  create_row-Refines user p normal found e = same-Refines sl db v (create user) eexist
  create_row-Refines user p deleted found e = refill-Refines _ p user _ found e (
      user_fill-Filled env sl mem db p db.next_user (db.users p).user db user false true
        (record { next = refl; at = refl; others = λ q k. refl }) refl)

  create_found-Refines :
      (user : UserInfo) (o : Option ℕ)
      → user_get sl db user.name ≡ o
      → let (r, db') = create_unless env sl db user o (normal_of env sl db o) in
        Refines sl (create user) db r db'
  unfolding normal_of create_unless user_create
  create_found-Refines user none e = alloc-Refines user (env.alloc_object db.ext) e
  create_found-Refines user (some p) e = create_row-Refines user p (db.users p).user.status e refl

  pub create-Refines :
      (user : UserInfo)
      → let (r, db') = adb_user_create env sl db user in Refines sl (create user) db r db'
  unfolding adb_user_create
  create-Refines user = create_found-Refines user (user_get sl db user.name) refl
