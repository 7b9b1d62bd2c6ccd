-- ===== src/Auth/Tests.antt =====
-- The theorems on users, pools and grants at concrete inputs.
use fast_cfs.Base.{pos, negsuc, ◌≡◌, refl, true, some, [], ◌∷◌, ok, err, arith, eio, ◌+ℤ◌, enoent}
use fast_cfs.Auth.Types.{UserInfo, PoolInfo, normal, is_available}
use fast_cfs.Auth.Dao.{dao_spool_create}
use fast_cfs.Auth.Users.{adb_user_create, adb_user_remove}
use fast_cfs.Auth.Users.View.{UserInv, create, remove, update_priv, view}
use fast_cfs.Auth.Users.History.{runs, replay, runs-replay, remove_create-count}
use fast_cfs.Auth.Pools.{adb_spool_create}
use fast_cfs.Auth.Pools.Refused.{Dangling, adb_spool_create-Dangling}
use fast_cfs.Auth.Quota.Edit.{PoolInv, told}
use fast_cfs.Auth.Quota.Mirror
use fast_cfs.Auth.Quota.Mirror.{Told, set_quota, set_used_bytes}
use fast_cfs.Auth.Example.{
  pairs, pairs-IsSkiplist, service, service-IsAllocator, refusing, find_pair, db,
}

abbrev newcomer : UserInfo
newcomer = record { id = 0; name = 8; passwd = some 80; priv = 1; status = normal }

db-UserInv : UserInv pairs db
unfolding pairs find_pair
db-UserInv = record { named = λ n p h. ground arith; below = λ n p h. ground arith }

runs-replay_example :
    let cs = create newcomer ∷ remove 7 ∷ update_priv 9 4 ∷ remove 3 ∷ [] in
    let (rs, db') = runs service pairs cs db in view pairs db' ≡ replay cs rs (view pairs db)
runs-replay_example =
    runs-replay service pairs service-IsAllocator pairs-IsSkiplist
      (create newcomer ∷ remove 7 ∷ update_priv 9 4 ∷ remove 3 ∷ []) db db-UserInv

-- The three calls that succeed, and the one on a name that is not there.
runs_results :
    (runs service pairs (create newcomer ∷ remove 7 ∷ update_priv 9 4 ∷ remove 3 ∷ []) db).0
    ≡ ok ∷ ok ∷ ok ∷ err enoent ∷ []
unfolding runs service pairs
runs_results = refl

abbrev back : UserInfo
back = record { id = 0; name = 9; passwd = some 91; priv = 0; status = normal }

remove_create-count_example :
    (adb_user_create service pairs (adb_user_remove service pairs db 9).1 back).1.count
    ≡ pos 2 +ℤ negsuc 0
unfolding adb_user_create adb_user_remove service pairs
remove_create-count_example = remove_create-count service pairs db back refl refl

db-PoolInv : PoolInv pairs db
unfolding pairs find_pair
db-PoolInv = record {
  named = λ n p h. ground arith;
  below = λ n p h. ground arith;
  ids = λ n p h. ground arith;
  listed = λ u n p h. ground arith;
  owned = λ u n p h. ground arith;
}

db-Told : Told pairs (λ id. true) db
unfolding pairs find_pair is_available told
db-Told = record { inv = db-PoolInv; mirrors = λ n p h. ground arith }

runs-Told_example :
    Told pairs
      (λ id. true)
      (Mirror.runs service pairs (set_used_bytes 5 (pos 100) ∷ set_quota 7 5 (pos 200) ∷ []) db)
runs-Told_example =
    Mirror.runs-Told service pairs (λ id. true)
      (set_used_bytes 5 (pos 100) ∷ set_quota 7 5 (pos 200) ∷ []) db db-Told

abbrev new_pool : PoolInfo
new_pool = record { id = 0; name = 8; quota = pos 50; used = pos 0; status = normal }

abbrev again : PoolInfo
again = record { id = 0; name = 6; quota = pos 10; used = pos 0; status = normal }

adb_spool_create-Dangling_example :
    let (c, db') = adb_spool_create refusing pairs db 7 again in
    Dangling refusing pairs db 0 1 again eio c db' × (pairs.find (db'.users 0).created 6 ≡ some 1)
unfolding pairs find_pair refusing service dao_spool_create
adb_spool_create-Dangling_example =
    adb_spool_create-Dangling refusing pairs db 7 0 1 again eio refl refl refl refl refl
