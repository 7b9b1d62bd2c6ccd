-- ===== src/Auth/Users/View.antt =====
-- The users of src/auth/server/db/auth_db.c as a client sees them: a map from a name to the
-- password and the privileges of a normal user.
use fast_cfs.Base.{ℕ, ◌<◌, ◌≡◌, ◌≢◌, Option, none, some, Status, ok, err, if◌then◌else◌, ◌==◌}
use fast_cfs.Auth.Types.{UserInfo, RowStatus, normal, deleted}
use fast_cfs.Auth.Backend.{Skiplist}
use fast_cfs.Auth.Db.{Db, user_get}

pub record Account : Type 0 where
  pub passwd : Option ℕ
  pub priv : ℕ

abbrev if_live : RowStatus → Account → Option Account
if_live normal a = some a
if_live deleted a = none

-- What a row shows.
unfoldable pub account_of : UserInfo → Option Account
account_of u = if_live u.status (record { passwd = u.passwd; priv = u.priv })

module _ {S T : Type 0} where
  unfoldable pub account_at : Db S T → Option ℕ → Option Account
  account_at db none = none
  account_at db (some p) = account_of (db.users p).user

  module _ (sl : Skiplist T) where
    unfoldable pub view : Db S T → ℕ → Option Account
    view db name = account_at db (user_get sl db name)

    -- The skiplist finds an object by the name that the object has.
    pub record UserInv (db : Db S T) : Type 0 where
      pub named : (n p : ℕ) → user_get sl db n ≡ some p → (db.users p).user.name ≡ n
      pub below : (n p : ℕ) → user_get sl db n ≡ some p → p < db.next_user

  -- `db` is `db0` with the row `info` at `p`; `k` is the next free pointer.
  pub record Draft (db0 db : Db S T) (p k : ℕ) (info : UserInfo) : Type 0 where
    pub next : db.next_user ≡ k
    pub at : (db.users p).user ≡ info
    pub others : (q : ℕ) → q ≢ p → db.users q ≡ db0.users q

-- The calls that change the users, and what they do to the map when they succeed.
pub data UserCall : Type 0 where
  create : UserInfo → UserCall
  remove : ℕ → UserCall
  update_priv : ℕ → ℕ → UserCall
  update_passwd : ℕ → Option ℕ → UserCall

abbrev pub name_of : UserCall → ℕ
name_of (create u) = u.name
name_of (remove n) = n
name_of (update_priv n x) = n
name_of (update_passwd n x) = n

abbrev with_priv : ℕ → Option Account → Option Account
with_priv x none = none
with_priv x (some a) = some (record a { priv = x })

abbrev with_passwd : Option ℕ → Option Account → Option Account
with_passwd x none = none
with_passwd x (some a) = some (record a { passwd = x })

abbrev pub effect : UserCall → Option Account → Option Account
effect (create u) old = account_of u
effect (remove n) old = none
effect (update_priv n x) old = with_priv x old
effect (update_passwd n x) old = with_passwd x old

-- A call that fails changes nothing; one that succeeds changes its own name.
unfoldable pub after : UserCall → Status → (ℕ → Option Account) → ℕ → Option Account
after c (err e) v j = v j
after c ok v j = if j == name_of c then effect c (v j) else v j
