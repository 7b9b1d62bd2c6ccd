-- ===== src/Auth/Backend.antt =====
-- What src/auth/server/db uses of other projects: the FastDIR client, in whose namespace the rows
-- are kept, the allocators, and the skiplist of libfastcommon with its documented behaviour.
use fast_cfs.Base.{
  ℕ, ◌≡◌, Bool, Option, none, some, List, Status, ok, err, eexist, Errno, if◌then◌else◌, ◌==◌, ℤ,
}
use fast_cfs.Auth.Types.{RowStatus}

-- The answer of a call that fails with an errno.
pub data Reply (A : Type 0) : Type 0 where
  done : A → Reply A
  fails : Errno → Reply A

-- An action on the state of the services.
abbrev pub Action : Type 0 → Type 0 → Type 0
Action S A = S → Reply A × S

module _ {S A B : Type 0} where
  abbrev pub next : Reply A × S → (A → Action S B) → Reply B × S
  next (done a, s) f = f a s
  next (fails e, s) f = (fails e, s)

  infixl 5 ◌>>=◌ ◌>>◌
  abbrev pub ◌>>=◌ : Action S A → (A → Action S B) → Action S B
  ◌>>=◌ m f s = next (m s) f

  abbrev pub ◌>>◌ : Action S A → Action S B → Action S B
  m >> k = m >>= λ _. k

abbrev pub pure : {S A : Type 0} → A → Action S A
pure a s = (done a, s)

abbrev pub raise : {S A : Type 0} → Errno → Action S A
raise e s = (fails e, s)

-- The entries below the base path: a user's home, its two directories and their files.
pub data DaoPath : Type 0 where
  home created_dir granted_dir : ℕ → DaoPath
  created_pool granted_pool : ℕ → ℕ → DaoPath

-- An extended attribute with its value.
pub data Xattr : Type 0 where
  passwd : Option ℕ → Xattr
  priv fdir fstore auto_pid : ℕ → Xattr
  status : RowStatus → Xattr
  quota : ℤ → Xattr

-- `fdir_client_create_dentry`, `fdir_client_lookup_inode_by_path_ex`, `dao_set_xattr_integer` and
-- `_string`, `fdir_client_remove_dentry`, and the allocations.
pub record Backend (S : Type 0) : Type 0 where
  pub create_dentry : DaoPath → Action S ℕ
  pub lookup_inode : DaoPath → Action S ℕ
  pub set_xattr : ℕ → Xattr → Action S Unit
  pub remove_dentry : DaoPath → Action S Unit
  pub alloc_object : S → Bool × S
  pub alloc_string : Option ℕ → Action S (Option ℕ)

-- `fast_allocator_alloc_string` copies its argument.
pub record IsAllocator {S : Type 0} (env : Backend S) : Type 0 where
  pub alloc_string_copies : (x : Option ℕ) (s : S) → (env.alloc_string x s).0 ≡ done x

-- A skiplist of pointers, searched by the key of the object.
pub record Skiplist (T : Type 0) : Type 0 where
  pub empty : T
  pub find : T → ℕ → Option ℕ
  pub insert : T → ℕ → ℕ → Status × T
  pub delete : T → ℕ → T
  pub elements : T → List ℕ

-- An insertion refuses a key that is there, and succeeds for another one.
pub record IsSkiplist {T : Type 0} (sl : Skiplist T) : Type 0 where
  pub find-empty : (k : ℕ) → sl.find sl.empty k ≡ none
  pub insert_present :
      (t : T) (k p q : ℕ) → sl.find t k ≡ some q → sl.insert t k p ≡ (err eexist, t)
  pub insert_absent : (t : T) (k p : ℕ) → sl.find t k ≡ none → (sl.insert t k p).0 ≡ ok
  pub find-insert :
      (t : T) (k p j : ℕ)
      → sl.find t k ≡ none
      → sl.find (sl.insert t k p).1 j ≡ (if j == k then some p else sl.find t j)
  pub find-delete :
      (t : T) (k j : ℕ) → sl.find (sl.delete t k) j ≡ (if j == k then none else sl.find t j)
