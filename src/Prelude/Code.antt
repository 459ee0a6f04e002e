-- ===== src/Prelude/Code.antt =====
-- The `int` that most functions return: a count that is not negative (0 is success), or -errno.
use mathlib.Core.Bool.{Bool, true, false}
use Prim.Native.Nat.{ℕ, zero, suc}

pub data Errno : Type 0 where
  enoent einval eio eagain ebusy etimedout ecanceled eexist enotempty enotdir eisdir : Errno
  eperm erange enodata enotsup enametoolong eacces : Errno
  -- The `errno` that a failed system call left behind.
  system : ℕ → Errno

pub data Code : Type 0 where
  ret : ℕ → Code
  err : Errno → Code

abbrev pub success : Code
success = ret 0

-- `if (r)`: every value but 0.
abbrev pub is_failure : Code → Bool
is_failure (ret zero) = false
is_failure (ret (suc n)) = true
is_failure (err e) = true

-- `if (r) return r;` before the rest of a function: the macro RETURN_ON_ERROR.
infixl 5 ◌and_then◌
abbrev pub ◌and_then◌ : Code → Code → Code
ret zero and_then k = k
ret (suc n) and_then k = ret (suc n)
err e and_then k = err e
