-- ===== src/Auth/Users/Agree.antt =====
-- What it means that a call agrees with the map that a client sees.
use fast_cfs.Base.{Errno, ℕ, ◌≡◌, none, some, Status, ok, err, if◌then◌else◌, is_ok, refl, arith}
use fast_cfs.Auth.Types.{UserInfo}
use fast_cfs.Auth.Backend.{Skiplist}
use fast_cfs.Auth.Db.{Db, user_get}
use fast_cfs.Auth.Users.Refine.{view-changed, inv-changed}
use fast_cfs.Auth.Users.View.{
  account_of, account_at, view, UserInv, Draft, UserCall, after, name_of, effect,
}

-- The call `c` took `db` to `db'` with the result `r`, as the map says.
pub record Refines {S T : Type 0} (sl : Skiplist T) (c : UserCall) (db : Db S T) (r : Status)
    (db' : Db S T) : Type 0 where
  pub inv : UserInv sl db'
  pub agrees : (j : ℕ) → view sl db' j ≡ after c r (view sl db) j

module _ {S T : Type 0} (sl : Skiplist T) (db : Db S T) (v : UserInv sl db) where
  -- A call that leaves the row `info` at the place of its name.
  pub row-Refines :
      (c : UserCall) (r : Status) (db' : Db S T) (p : ℕ) (info : UserInfo)
      → user_get sl db (name_of c) ≡ some p
      → Draft db db' p db.next_user info
      → db'.user_list ≡ db.user_list
      → info.name ≡ name_of c
      → account_of info
        ≡ (if is_ok r then effect c (view sl db (name_of c)) else view sl db (name_of c))
      → Refines sl c db r db'
  unfolding after
  row-Refines c ok db' p info found d list same shown = record {
    inv = inv-changed sl db db' p db.next_user info v d list (name_of c) found same (omega arith);
    agrees = λ j.
        ground (arith, view-changed sl db db' p db.next_user info v d list (name_of c) found j);
  }
  row-Refines c (err e) db' p info found d list same shown = record {
    inv = inv-changed sl db db' p db.next_user info v d list (name_of c) found same (omega arith);
    agrees = λ j.
        ground (arith, view-changed sl db db' p db.next_user info v d list (name_of c) found j);
  }

  pub same-Refines : (c : UserCall) (e : Errno) → Refines sl c db (err e) db
  unfolding after
  same-Refines c e = record { inv = v; agrees = λ j. refl }

  pub ext-Refines :
      (c : UserCall) (e : Errno) (s : S) → Refines sl c db (err e) (record db { ext = s })
  unfolding after view account_at
  ext-Refines c e s = record {
    inv = record { named = v.named; below = v.below };
    agrees = λ j. elim (user_get sl db j) [ none ↦ refl | some q ↦ refl ];
  }
