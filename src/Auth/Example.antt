-- ===== src/Auth/Example.antt =====
-- A skiplist and a directory service that behave as the models ask, for the tests.
use fast_cfs.Base.{
  ℕ, suc, ◌≡◌, true, Option, none, some, List, [], ◌∷◌, Status, ok, err, eexist, eio, enoent,
  if◌then◌else◌, ltb, ◌==◌, map, refl, arith, pos, negsuc,
}
use fast_cfs.Auth.Types.{normal, DbUser, DbSpool, DbGranted, access_none, Privileges, deleted}
use fast_cfs.Auth.Backend.{done, fails, Backend, IsAllocator, Skiplist, IsSkiplist}
use fast_cfs.Auth.Db.{Db}

abbrev pub Pairs : Type 0
Pairs = List (ℕ × ℕ)

unfoldable pub find_pair : Pairs → ℕ → Option ℕ
find_pair [] k = none
find_pair (x ∷ xs) k = if k == x.0 then some x.1 else find_pair xs k

unfoldable pub put_pair : Pairs → ℕ → ℕ → Pairs
put_pair [] k p = (k, p) ∷ []
put_pair (x ∷ xs) k p = if ltb k x.0 then (k, p) ∷ x ∷ xs else x ∷ put_pair xs k p

unfoldable pub drop_pair : Pairs → ℕ → Pairs
drop_pair [] k = []
drop_pair (x ∷ xs) k = let rest = drop_pair xs k in if k == x.0 then rest else x ∷ rest

unfoldable pub insert_unless : Option ℕ → Pairs → ℕ → ℕ → Status × Pairs
unfolding put_pair
insert_unless none t k p = (ok, put_pair t k p)
insert_unless (some q) t k p = (err eexist, t)

unfoldable pub pairs : Skiplist Pairs
unfolding find_pair insert_unless drop_pair
pairs = record {
  empty = [];
  find = find_pair;
  insert = λ t k p. insert_unless (find_pair t k) t k p;
  delete = drop_pair;
  elements = map (λ x. x.1);
}

find-put :
    (t : Pairs) (k p j : ℕ)
    → find_pair t k ≡ none
    → find_pair (put_pair t k p) j ≡ (if j == k then some p else find_pair t j)
unfolding find_pair put_pair
find-put [] k p j h = ground arith
find-put (x ∷ xs) k p j h = ground (arith, find-put xs k p j)

find-drop :
    (t : Pairs) (k j : ℕ) → find_pair (drop_pair t k) j ≡ (if j == k then none else find_pair t j)
unfolding find_pair drop_pair
find-drop [] k j = ground arith
find-drop (x ∷ xs) k j = ground (arith, find-drop xs k j)

pub pairs-IsSkiplist : IsSkiplist pairs
unfolding pairs insert_unless find_pair
pairs-IsSkiplist = record {
  find-empty = λ k. refl;
  insert_present = λ t k p q h. ground (arith, h);
  insert_absent = λ t k p h. ground (arith, h);
  find-insert = λ t k p j h. rw h (find-put t k p j h);
  find-delete = λ t k j. find-drop t k j;
}

-- Inodes are handed out in order, every call succeeds, and no entry exists.
unfoldable pub service : Backend ℕ
service = record {
  create_dentry = λ path s. (done (suc s), suc s);
  lookup_inode = λ path s. (fails enoent, s);
  set_xattr = λ inode x s. (done tt, s);
  remove_dentry = λ path s. (done tt, s);
  alloc_object = λ s. (true, s);
  alloc_string = λ x s. (done x, s);
}

pub service-IsAllocator : IsAllocator service
unfolding service
service-IsAllocator = record { alloc_string_copies = λ x s. refl }

-- A service that refuses to set an attribute.
unfoldable pub refusing : Backend ℕ
unfolding service
refusing = record service { set_xattr = λ inode x s. (fails eio, s) }

abbrev pub no_user : DbUser Pairs
no_user = record {
  user = record { id = 0; name = 0; passwd = none; priv = 0; status = normal };
  created = [];
  granted = [];
}

abbrev pub no_spool : DbSpool
no_spool = record {
  pool = record { id = 0; name = 0; quota = pos 0; used = pos 0; status = normal };
  owner = 0;
}

abbrev pub no_grant : DbGranted
no_grant = record { granted = record { id = 0; pool_id = 0; privs = access_none }; sp = 0 }

abbrev pub empty_db : Db ℕ Pairs
empty_db = record {
  ext = 0;
  users = λ p. no_user;
  next_user = 0;
  user_list = [];
  count = pos 0;
  spools = λ p. no_spool;
  next_spool = 0;
  freed_spools = [];
  by_id = [];
  by_name = [];
  grants = λ p. no_grant;
  next_grant = 0;
  freed_grants = [];
  auto_id = 0;
  calls = [];
}

-- The user 7 owns the pools 5 and 6, the second one removed; the user 9 is granted the pool 5.
abbrev pub owner : DbUser Pairs
owner = record {
  user = record { id = 1; name = 7; passwd = some 70; priv = 2; status = normal };
  created = (5, 0) ∷ (6, 1) ∷ [];
  granted = [];
}

abbrev pub guest : DbUser Pairs
guest = record {
  user = record { id = 2; name = 9; passwd = some 90; priv = 0; status = normal };
  created = [];
  granted = (3, 0) ∷ [];
}

abbrev pub pool : DbSpool
pool = record {
  pool = record { id = 3; name = 5; quota = pos 100; used = pos 40; status = normal };
  owner = 0;
}

abbrev pub removed_pool : DbSpool
removed_pool = record {
  pool = record { id = 4; name = 6; quota = negsuc 0; used = pos 0; status = deleted };
  owner = 0;
}

abbrev pub readable : Privileges
readable = record { fdir = 4; fstore = 4 }

abbrev pub db : Db ℕ Pairs
db = record empty_db {
  ext = 5;
  users = λ p. if p == 0 then owner else if p == 1 then guest else no_user;
  next_user = 2;
  user_list = (7, 0) ∷ (9, 1) ∷ [];
  count = pos 2;
  spools = λ p. if p == 0 then pool else if p == 1 then removed_pool else no_spool;
  next_spool = 2;
  by_id = (3, 0) ∷ (4, 1) ∷ [];
  by_name = (5, 0) ∷ (6, 1) ∷ [];
  grants = λ p.
      if p == 0
      then record { granted = record { id = 5; pool_id = 3; privs = readable }; sp = 0 }
      else no_grant;
  next_grant = 1;
}
