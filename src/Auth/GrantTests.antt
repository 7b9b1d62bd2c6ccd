-- ===== src/Auth/GrantTests.antt =====
-- The theorems on grants at concrete inputs.
use fast_cfs.Base.{◌≡◌, refl, some, ok, err, arith, eio, enoent}
use fast_cfs.Auth.Types.{GrantedInfo, access_none}
use fast_cfs.Auth.Dao.{dao_granted_create}
use fast_cfs.Auth.Grants.{adb_granted_create, adb_granted_remove, adb_granted_privs_get}
use fast_cfs.Auth.Grants.Rights.{GrantInv, rights}
use fast_cfs.Auth.Grants.Privs.{adb_granted_create-privs, adb_granted_remove-privs}
use fast_cfs.Auth.Grants.Refused.{Dangling, adb_granted_create-Dangling}
use fast_cfs.Auth.Example.{pairs, pairs-IsSkiplist, service, refusing, find_pair, db}

db-GrantInv : GrantInv pairs db
unfolding pairs find_pair
db-GrantInv = record {
  keyed = λ u j p h. ground arith;
  below = λ u j p h. ground arith;
  apart = λ u w i j p h k. ground arith;
}

abbrev writable : GrantedInfo
writable = record { id = 0; pool_id = 3; privs = record { fdir = 6; fstore = 6 } }

adb_granted_create-privs_example :
    adb_granted_privs_get pairs (adb_granted_create service pairs db 9 writable).1 1 0
    ≡ (ok, writable.privs)
unfolding adb_granted_create adb_granted_privs_get service pairs find_pair
adb_granted_create-privs_example =
    adb_granted_create-privs service pairs pairs-IsSkiplist db 9 1 db-GrantInv refl refl writable
      refl 1 0

adb_granted_remove-privs_example :
    adb_granted_privs_get pairs (adb_granted_remove service pairs db 9 3).1 1 0
    ≡ (err enoent, access_none)
unfolding adb_granted_remove adb_granted_privs_get service pairs find_pair
adb_granted_remove-privs_example =
    adb_granted_remove-privs service pairs pairs-IsSkiplist db 9 1 db-GrantInv refl refl 3 refl 1 0

adb_granted_create-Dangling_example :
    let (c, db') = adb_granted_create refusing pairs db 9 writable in
    Dangling refusing pairs db 1 0 writable eio c db' × (rights pairs db' 1 3 ≡ some writable.privs)
unfolding pairs find_pair refusing service dao_granted_create
adb_granted_create-Dangling_example =
    adb_granted_create-Dangling refusing pairs db 9 1 0 writable eio refl refl refl refl refl
