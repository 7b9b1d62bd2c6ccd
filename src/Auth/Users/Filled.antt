-- ===== src/Auth/Users/Filled.antt =====
-- What `user_create` leaves of a row, on each of its branches.
use fast_cfs.Base.{
  ℕ, ◌≡◌, Option, Status, ok, err, if◌then◌else◌, ◌&&◌, is_ok, refl, ap, ◌∙◌, arith, true, false,
  Bool,
}
use fast_cfs.Auth.Types.{UserInfo}
use fast_cfs.Auth.Backend.{Reply, done, fails, Backend, Skiplist, IsAllocator}
use fast_cfs.Auth.Db.{Db, set_info}
use fast_cfs.Auth.Users.{
  user_set_passwd, set_passwd, user_link, user_store, user_fill, count_insert,
}
use fast_cfs.Auth.Users.View.{account_of, Draft}

-- The row `row` of `db0` after the creation of `user` that ended with `r`.
pub record Filled {S T : Type 0} (sl : Skiplist T) (db0 db : Db S T) (p k : ℕ) (row user : UserInfo)
    (need_insert : Bool) (r : Status) : Type 0 where
  pub info : UserInfo
  pub draft : Draft db0 db p k info
  pub same_name : info.name ≡ row.name
  pub list :
      db.user_list
      ≡ (if is_ok r && need_insert then (sl.insert db0.user_list user.name p).1 else db0.user_list)
  pub shown : is_ok r ≡ true → account_of info ≡ account_of user
  pub kept : is_ok r ≡ false → info.status ≡ row.status

module _ {S T : Type 0} where
  -- A write to the row.
  pub edit-Draft :
      (f : UserInfo → UserInfo) (db0 db : Db S T) (p k : ℕ) (info : UserInfo)
      → Draft db0 db p k info
      → Draft db0 (set_info db p (f (db.users p).user)) p k (f info)
  unfolding set_info
  edit-Draft f db0 db p k info d = record {
    next = d.next;
    at = ground (arith, ap f d.at);
    others = λ q h. ground (arith, d.others q h);
  }

  pub with_ext :
      {db0 db : Db S T} {p k : ℕ} {info : UserInfo} {s : S}
      → Draft db0 db p k info
      → Draft db0 (record db { ext = s }) p k info
  with_ext d = record { next = d.next; at = d.at; others = d.others }

module _ {S T : Type 0} (env : Backend S) (sl : Skiplist T) (mem : IsAllocator env) (db0 : Db S T)
    (p k : ℕ) (row : UserInfo) where
  -- The insertion writes the list and the count.
  count_insert-users : (db : Db S T) (x : Status × T) → (count_insert env sl db x).users ≡ db.users
  unfolding count_insert
  count_insert-users db (ok, t) = refl
  count_insert-users db (err e, t) = refl

  count_insert-next :
      (db : Db S T) (x : Status × T) → (count_insert env sl db x).next_user ≡ db.next_user
  unfolding count_insert
  count_insert-next db (ok, t) = refl
  count_insert-next db (err e, t) = refl

  count_insert-list : (db : Db S T) (x : Status × T) → (count_insert env sl db x).user_list ≡ x.1
  unfolding count_insert
  count_insert-list db (ok, t) = refl
  count_insert-list db (err e, t) = refl

  count_insert-Draft :
      (db : Db S T) (x : Status × T) (info : UserInfo)
      → Draft db0 db p k info
      → Draft db0 (count_insert env sl db x) p k info
  count_insert-Draft db x info d = record {
    next = count_insert-next db x ∙ d.next;
    at = ap (λ us. (us p).user) (count_insert-users db x) ∙ d.at;
    others = λ q h. ap (λ us. us q) (count_insert-users db x) ∙ d.others q h;
  }

  user_link-Filled :
      (db : Db S T) (user info : UserInfo) (need_insert : Bool)
      → Draft db0 db p k info
      → db.user_list ≡ db0.user_list
      → info.name ≡ row.name
      → info.passwd ≡ user.passwd
      → info.priv ≡ user.priv
      → Filled sl db0 (user_link env sl db p user need_insert) p k row user need_insert ok
  unfolding user_link set_info account_of
  user_link-Filled db user info false d list name passwd priv = record {
    info = record info { status = user.status };
    draft = edit-Draft (λ u. record u { status = user.status }) db0 db p k info d;
    same_name = name;
    list = list;
    shown = λ _. ground (arith, passwd, priv);
    kept = λ h. cc;
  }
  user_link-Filled db user info true d list name passwd priv = record {
    info = record info { status = user.status };
    draft =
        count_insert-Draft _ _ _
          (edit-Draft (λ u. record u { status = user.status }) db0 db p k info d);
    same_name = name;
    list =
        count_insert-list (set_info db p (record (db.users p).user { status = user.status }))
          (sl.insert db.user_list user.name p)
        ∙ ap (λ t. (sl.insert t user.name p).1) list;
    shown = λ _. ground (arith, passwd, priv);
    kept = λ h. cc;
  }

  user_store-Filled :
      (db : Db S T) (user info : UserInfo) (need_insert : Bool) (r : Reply ℕ × S)
      → Draft db0 db p k info
      → db.user_list ≡ db0.user_list
      → info.name ≡ row.name
      → info.passwd ≡ user.passwd
      → info.priv ≡ user.priv
      → info.status ≡ row.status
      → let (c, db') = user_store env sl db p user need_insert r in
        Filled sl db0 db' p k row user need_insert c
  unfolding user_store set_info
  user_store-Filled db user info need_insert (done id, s) d list name passwd priv status =
      user_link-Filled _ user (record info { id = id }) need_insert
        (edit-Draft (λ u. record u { id = id }) db0 (record db { ext = s }) p k info (with_ext d))
        list name passwd priv
  user_store-Filled db user info need_insert (fails e, s) d list name passwd priv status = record {
    info = info;
    draft = with_ext d;
    same_name = name;
    list = list;
    shown = λ h. cc;
    kept = λ _. status;
  }

  fill_after-Filled :
      (db : Db S T) (user : UserInfo) (need_insert addto_backend : Bool) (r : Reply (Option ℕ) × S)
      → r.0 ≡ done user.passwd
      → Draft db0 db p k row
      → db.user_list ≡ db0.user_list
      → let (c, db') =
          user_fill env sl p user need_insert addto_backend (set_passwd env sl db p r) in
        Filled sl db0 db' p k row user need_insert c
  unfolding user_fill set_passwd set_info
  fill_after-Filled db user need_insert addto_backend (done str, s) h d list =
      user_store-Filled _ user (record row { passwd = str; priv = user.priv }) need_insert _
        (edit-Draft (λ u. record u { priv = user.priv }) db0 _ p k (record row { passwd = str })
          (with_ext {s = s} (edit-Draft (λ u. record u { passwd = str }) db0 db p k row d)))
        list refl (ground (arith)) refl refl
  fill_after-Filled db user need_insert addto_backend (fails e, s) h d list = cc

  pub user_fill-Filled :
      (db : Db S T) (user : UserInfo) (need_insert addto_backend : Bool)
      → Draft db0 db p k row
      → db.user_list ≡ db0.user_list
      → let (c, db') =
          user_fill env sl p user need_insert addto_backend
            (user_set_passwd env sl db p user.passwd) in
        Filled sl db0 db' p k row user need_insert c
  unfolding user_set_passwd
  user_fill-Filled db user need_insert addto_backend =
      fill_after-Filled db user need_insert addto_backend (env.alloc_string user.passwd db.ext)
        (mem.alloc_string_copies user.passwd db.ext)
