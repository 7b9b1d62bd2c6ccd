-- ===== src/Auth/Users/Calls.antt =====
-- The calls that change the users, in any order, against the map that a client sees.
use fast_cfs.Base.{
  ℕ, ◌≡◌, Option, none, some, Status, ok, err, enoent, if◌then◌else◌, ◌==◌, refl, ◌∙◌, arith, true,
  false, Bool,
}
use fast_cfs.Auth.Types.{UserInfo, RowStatus, normal, deleted}
use fast_cfs.Auth.Backend.{Reply, done, fails, Backend, Skiplist, IsAllocator, IsSkiplist}
use fast_cfs.Auth.Db.{Db, user_get, set_info, call_back, if_normal}
use fast_cfs.Auth.Users.{
  adb_user_create, adb_user_remove, adb_user_update_priv, adb_user_update_passwd, adb_user_get,
  normal_of, user_set_passwd, remove_done, remove_found, priv_done, priv_found, passwd_done,
  passwd_found, set_passwd,
}
use fast_cfs.Auth.Users.Filled.{edit-Draft}
use fast_cfs.Auth.Users.View.{
  account_of, account_at, view, UserInv, Draft, UserCall, create, remove, update_priv,
  update_passwd, name_of, effect,
}
use fast_cfs.Auth.Dao.{dao_user_update_priv}
use fast_cfs.Auth.Users.Agree.{Refines, row-Refines, same-Refines, ext-Refines}
use fast_cfs.Auth.Users.Create.{create-Refines}

module _ {S T : Type 0} (env : Backend S) (sl : Skiplist T) where
  unfoldable pub run : UserCall → Db S T → Status × Db S T
  unfolding adb_user_create adb_user_remove adb_user_update_priv adb_user_update_passwd
  run (create user) db = adb_user_create env sl db user
  run (remove name) db = adb_user_remove env sl db name
  run (update_priv name priv) db = adb_user_update_priv env sl db name priv
  run (update_passwd name passwd) db = adb_user_update_passwd env sl db name passwd

module _ {S T : Type 0} (env : Backend S) (sl : Skiplist T) (mem : IsAllocator env)
    (laws : IsSkiplist sl) (db : Db S T) (v : UserInv sl db) where
  base-Draft :
      (f : UserInfo → UserInfo) (p : ℕ)
      → Draft db (set_info db p (f (db.users p).user)) p db.next_user (f (db.users p).user)
  base-Draft f p =
      edit-Draft f db db p db.next_user (db.users p).user
        (record { next = refl; at = refl; others = λ q k. refl })

  -- A call that has found a normal row and writes `f` of it.
  write-Refines :
      (c : UserCall) (f : UserInfo → UserInfo) (p : ℕ) (db' : Db S T)
      → user_get sl db (name_of c) ≡ some p
      → Draft db db' p db.next_user (f (db.users p).user)
      → db'.user_list ≡ db.user_list
      → (f (db.users p).user).name ≡ (db.users p).user.name
      → account_of (f (db.users p).user) ≡ effect c (account_of (db.users p).user)
      → Refines sl c db ok db'
  unfolding view account_at
  write-Refines c f p db' found d list same shown =
      row-Refines sl db v c ok db' p (f (db.users p).user) found d list
        (same ∙ v.named (name_of c) p found) (rw found shown)

  remove-Refines :
      (name p : ℕ) (x : Reply Unit × S)
      → user_get sl db name ≡ some p
      → let (r, db') = remove_done env sl db p x in Refines sl (remove name) db r db'
  unfolding remove_done account_of
  remove-Refines name p (done u, s) found =
      let d = base-Draft (λ row. record row { status = deleted }) p in
      write-Refines (remove name) (λ row. record row { status = deleted }) p
        (remove_done env sl db p (done u, s)).1 found
        (record { next = d.next; at = d.at; others = d.others }) refl refl refl
  remove-Refines name p (fails e, s) found = ext-Refines sl db v (remove name) e s

  priv-Refines :
      (name priv p : ℕ) (x : Reply Unit × S)
      → user_get sl db name ≡ some p
      → (db.users p).user.status ≡ normal
      → let (r, db') = priv_done env sl db p priv x in Refines sl (update_priv name priv) db r db'
  unfolding priv_done account_of call_back
  priv-Refines name priv p (done u, s) found live =
      let d = base-Draft (λ row. record row { priv = priv }) p in
      write-Refines (update_priv name priv) (λ row. record row { priv = priv }) p
        (priv_done env sl db p priv (done u, s)).1 found
        (record { next = d.next; at = d.at; others = d.others }) refl refl (rw live refl)
  priv-Refines name priv p (fails e, s) found live = ext-Refines sl db v (update_priv name priv) e s

  set_passwd-Refines :
      (name p : ℕ) (passwd : Option ℕ) (x : Reply (Option ℕ) × S)
      → x.0 ≡ done passwd
      → user_get sl db name ≡ some p
      → (db.users p).user.status ≡ normal
      → (s : S)
      → Refines sl
          (update_passwd name passwd)
          db
          ok
          (set_passwd env sl (record db { ext = s }) p x).1
  unfolding set_passwd account_of
  set_passwd-Refines name p passwd (done str, s') h found live s =
      let d = base-Draft (λ row. record row { passwd = str }) p in
      write-Refines (update_passwd name passwd) (λ row. record row { passwd = str }) p
        (set_passwd env sl (record db { ext = s }) p (done str, s')).1 found
        (record { next = d.next; at = d.at; others = d.others }) refl refl (rw live (ground arith))
  set_passwd-Refines name p passwd (fails e, s') h found live s = cc

  passwd-Refines :
      (name p : ℕ) (passwd : Option ℕ) (x : Reply Unit × S)
      → user_get sl db name ≡ some p
      → (db.users p).user.status ≡ normal
      → let (r, db') = passwd_done env sl db p passwd x in
        Refines sl (update_passwd name passwd) db r db'
  unfolding passwd_done user_set_passwd
  passwd-Refines name p passwd (done u, s) found live =
      set_passwd-Refines name p passwd (env.alloc_string passwd s)
        (mem.alloc_string_copies passwd s) found live s
  passwd-Refines name p passwd (fails e, s) found live =
      ext-Refines sl db v (update_passwd name passwd) e s

  self-Draft : (p : ℕ) → Draft db db p db.next_user (db.users p).user
  self-Draft p = record { next = refl; at = refl; others = λ q k. refl }

  priv_live-Refines :
      (name priv p : ℕ) (same : Bool)
      → ((db.users p).user.priv == priv) ≡ same
      → user_get sl db name ≡ some p
      → (db.users p).user.status ≡ normal
      → let (r, db') =
          if same
          then (ok, db)
          else priv_done env sl db p priv
              (dao_user_update_priv env (db.users p).user.id priv db.ext) in
        Refines sl (update_priv name priv) db r db'
  unfolding account_of
  priv_live-Refines name priv p true h found live =
      write-Refines (update_priv name priv) (λ row. row) p db found (self-Draft p) refl refl
        (rw live (ground arith))
  priv_live-Refines name priv p false h found live = priv-Refines name priv p _ found live

  -- The calls on a name, by the row that it finds.
  status-Refines :
      (c : UserCall) (p : ℕ) (status : RowStatus)
      → user_get sl db (name_of c) ≡ some p
      → (db.users p).user.status ≡ status
      → (k : Option ℕ → Status × Db S T) → k none ≡ (err enoent, db)
      → ((db.users p).user.status ≡ normal → Refines sl c db (k (some p)).0 (k (some p)).1)
      → Refines sl c db (k (if_normal status p)).0 (k (if_normal status p)).1
  unfolding if_normal
  status-Refines c p normal found e k missing live = live e
  status-Refines c p deleted found e k missing live = rw missing (same-Refines sl db v c enoent)

  found-Refines :
      (c : UserCall) (o : Option ℕ)
      → user_get sl db (name_of c) ≡ o
      → (k : Option ℕ → Status × Db S T) → k none ≡ (err enoent, db)
      → ((p : ℕ)
          → user_get sl db (name_of c) ≡ some p
          → (db.users p).user.status ≡ normal
          → Refines sl c db (k (some p)).0 (k (some p)).1)
      → Refines sl c db (k (normal_of env sl db o)).0 (k (normal_of env sl db o)).1
  unfolding normal_of
  found-Refines c none e k missing live = rw missing (same-Refines sl db v c enoent)
  found-Refines c (some p) e k missing live =
      status-Refines c p (db.users p).user.status e refl k missing (live p e)

  -- Each call that changes the users does to the map of the normal users what its name says when
  -- it succeeds, and nothing when it fails, whatever the directory service and the allocator
  -- answer, given that copies of strings succeed and the skiplist behaves as `IsSkiplist` says.
  -- The skiplist goes on to find every row by its name.
  pub run-Refines : (c : UserCall) → let (r, db') = run env sl c db in Refines sl c db r db'
  unfolding run adb_user_remove adb_user_update_priv adb_user_update_passwd adb_user_get
      remove_found priv_found passwd_found
  run-Refines (create user) = create-Refines env sl mem laws db v user
  run-Refines (remove name) =
      found-Refines (remove name) (user_get sl db name) refl (remove_found env sl db) refl
        λ p found live. remove-Refines name p _ found
  run-Refines (update_priv name priv) =
      found-Refines (update_priv name priv) (user_get sl db name) refl (priv_found env sl db priv)
        refl λ p found live. priv_live-Refines name priv p _ refl found live
  run-Refines (update_passwd name passwd) =
      found-Refines (update_passwd name passwd) (user_get sl db name) refl
        (passwd_found env sl db passwd) refl
        λ p found live. passwd-Refines name p passwd _ found live
