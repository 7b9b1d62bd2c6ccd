-- ===== src/Base/Codes.antt =====
-- The result codes of the C functions: 0 is `ok`, any other value is `err` of an errno.
use Prim.Native.Nat.{ℕ}
use mathlib.Core.Path.{◌≡◌, refl}
use mathlib.Core.Logic.{◌⊎◌, inl, inr}
use mathlib.Core.Bool.{Bool, true, false}

pub data Errno : Type 0 where
  eperm enoent eio eagain enomem eacces ebusy eexist eisdir einval eloop enodata eoverflow : Errno
  ebadf leader_inconsistent not_master enospc efault : Errno
  -- `-EINVAL`, after which the connection is closed
  minus_einval : Errno
  other : ℕ → Errno

pub data Status : Type 0 where
  ok : Status
  err : Errno → Status

-- `result == 0`
abbrev pub is_ok : Status → Bool
is_ok ok = true
is_ok (err e) = false

pub Status-cases : (r : Status) → (is_ok r ≡ true) ⊎ (is_ok r ≡ false)
Status-cases ok = inl refl
Status-cases (err e) = inr refl

pub is_ok→ok : (r : Status) → is_ok r ≡ true → r ≡ ok
is_ok→ok ok h = refl
is_ok→ok (err e) h = cc
