-- ===== src/Auth/Users/History.antt =====
-- Sequences of calls on the users, and the number of users.
use fast_cfs.Base.{
  if◌then◌else◌, ℕ, ◌≡◌, Option, none, some, Status, ok, err, refl, ap, ◌∙◌, Bool, true, false,
  List, [], ◌∷◌, negsuc, ◌+ℤ◌,
}
use mathlib.Core.Path.{fun_ext}
use fast_cfs.Auth.Types.{UserInfo, RowStatus, normal, deleted}
use fast_cfs.Auth.Backend.{Reply, done, fails, Backend, Skiplist, IsAllocator, IsSkiplist}
use fast_cfs.Auth.Dao.{dao_user_create}
use fast_cfs.Auth.Db.{Db, user_get, set_info, if_normal}
use fast_cfs.Auth.Users.{
  adb_user_create, adb_user_remove, create_unless, normal_of, user_create, user_fill, user_store,
  user_link, user_set_passwd, set_passwd, remove_done, remove_found, adb_user_get,
}
use fast_cfs.Auth.Users.View.{Account, view, UserInv, UserCall, after}
use fast_cfs.Auth.Users.Calls.{run, run-Refines}

module _ {S T : Type 0} (env : Backend S) (sl : Skiplist T) where
  -- The results of the calls and the last state.
  unfoldable pub runs : List UserCall → Db S T → List Status × Db S T
  unfolding run
  runs [] db = ([], db)
  runs (c ∷ cs) db =
      let (r, db') = run env sl c db in let (rs, db'') = runs cs db' in (r ∷ rs, db'')

-- The map after the calls with their results.
unfoldable pub replay : List UserCall → List Status → (ℕ → Option Account) → ℕ → Option Account
unfolding after
replay [] rs m = m
replay (c ∷ cs) [] m = m
replay (c ∷ cs) (r ∷ rs) m = replay cs rs (after c r m)

module _ {S T : Type 0} (env : Backend S) (sl : Skiplist T) (mem : IsAllocator env)
    (laws : IsSkiplist sl) where
  -- After any sequence of calls on the users, the normal users with their passwords and privileges
  -- are what the successful calls alone make of the ones at the start, in the order of the calls,
  -- given that copies of strings succeed and the skiplist behaves as `IsSkiplist` says.
  pub runs-replay :
      (cs : List UserCall) (db : Db S T)
      → UserInv sl db
      → let (rs, db') = runs env sl cs db in view sl db' ≡ replay cs rs (view sl db)
  unfolding runs replay
  runs-replay [] db v = refl
  runs-replay (c ∷ cs) db v =
      let step = run-Refines env sl mem laws db v c in
      runs-replay cs (run env sl c db).1 step.inv
      ∙ ap (replay cs (runs env sl cs (run env sl c db).1).0) (fun_ext step.agrees)

module _ {S T : Type 0} (env : Backend S) (sl : Skiplist T) where
  count-set_info : (db : Db S T) (p : ℕ) (row : UserInfo) → (set_info db p row).count ≡ db.count
  unfolding set_info
  count-set_info db p row = refl

  count-store :
      (db : Db S T) (p : ℕ) (user : UserInfo) (r : Reply ℕ × S)
      → (user_store env sl db p user false r).1.count ≡ db.count
  unfolding user_store user_link set_info
  count-store db p user (done id, s) = refl
  count-store db p user (fails e, s) = refl

  count-fill :
      (p : ℕ) (user : UserInfo) (b : Bool) (x : Status × Db S T)
      → (user_fill env sl p user false b x).1.count ≡ x.1.count
  unfolding user_fill
  count-fill p user b (ok, db) =
      let db' = set_info db p (record (db.users p).user { priv = user.priv }) in
      count-store db' p user
        (if b then dao_user_create env (db'.users p).user db'.ext else (done user.id, db'.ext))
      ∙ count-set_info db p (record (db.users p).user { priv = user.priv })
  count-fill p user b (err e, db) = refl

  count-set_passwd :
      (db : Db S T) (p : ℕ) (x : Reply (Option ℕ) × S)
      → (set_passwd env sl db p x).1.count ≡ db.count
  unfolding set_passwd set_info
  count-set_passwd db p (done str, s) = refl
  count-set_passwd db p (fails e, s) = refl

  count-create_unless :
      (db : Db S T) (user : UserInfo) (p : ℕ) (o : Option ℕ)
      → (create_unless env sl db user (some p) o).1.count ≡ db.count
  unfolding create_unless user_create user_set_passwd
  count-create_unless db user p none =
      count-fill p user true (set_passwd env sl db p (env.alloc_string user.passwd db.ext))
      ∙ count-set_passwd db p (env.alloc_string user.passwd db.ext)
  count-create_unless db user p (some q) = refl

  -- what a removal that succeeds has found and left
  record Removed (name : ℕ) (db db' : Db S T) : Type 0 where
    at : ℕ
    found : user_get sl db name ≡ some at
    list : db'.user_list ≡ db.user_list
    less : db'.count ≡ db.count +ℤ negsuc 0

  remove_done-Removed :
      (name : ℕ) (db : Db S T) (p : ℕ) (x : Reply Unit × S)
      → user_get sl db name ≡ some p
      → (remove_done env sl db p x).0 ≡ ok
      → Removed name db (remove_done env sl db p x).1
  unfolding remove_done set_info
  remove_done-Removed name db p (done u, s) found h = record {
    at = p;
    found = found;
    list = refl;
    less = refl;
  }
  remove_done-Removed name db p (fails e, s) found h = cc

  remove_row-Removed :
      (name : ℕ) (db : Db S T) (p : ℕ) (status : RowStatus)
      → user_get sl db name ≡ some p
      → (remove_found env sl db (if_normal status p)).0 ≡ ok
      → Removed name db (remove_found env sl db (if_normal status p)).1
  unfolding remove_found if_normal
  remove_row-Removed name db p normal found h = remove_done-Removed name db p _ found h
  remove_row-Removed name db p deleted found h = cc

  remove_found-Removed :
      (name : ℕ) (db : Db S T) (o : Option ℕ)
      → user_get sl db name ≡ o
      → (remove_found env sl db (normal_of env sl db o)).0 ≡ ok
      → Removed name db (remove_found env sl db (normal_of env sl db o)).1
  unfolding normal_of remove_found
  remove_found-Removed name db none e h = cc
  remove_found-Removed name db (some p) e h =
      remove_row-Removed name db p (db.users p).user.status e h

  -- When a user has been removed and a user of the same name is created again, the number of users
  -- stays one less than before the removal, though the name is used again.
  pub remove_create-count :
      (db : Db S T) (user : UserInfo)
      → (adb_user_remove env sl db user.name).0 ≡ ok
      → (adb_user_create env sl (adb_user_remove env sl db user.name).1 user).0 ≡ ok
      → (adb_user_create env sl (adb_user_remove env sl db user.name).1 user).1.count
        ≡ db.count +ℤ negsuc 0
  unfolding adb_user_create adb_user_remove adb_user_get
  remove_create-count db user h h' =
      let rm = remove_found-Removed user.name db (user_get sl db user.name) refl h in
      let db1 = (remove_found env sl db (normal_of env sl db (user_get sl db user.name))).1 in
      ap (λ o. (create_unless env sl db1 user o (normal_of env sl db1 o)).1.count)
        (ap (λ t. sl.find t user.name) rm.list ∙ rm.found)
      ∙ count-create_unless db1 user rm.at _
      ∙ rm.less
