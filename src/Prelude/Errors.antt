-- ===== src/Prelude/Errors.antt =====
-- The error numbers of include/kernel/lib/libc/errno.h that the modelled code returns, and what
-- such a function leaves: a value, an error number, or a panic (a failed assertion, `panic`).
use mathlib.Core.Option.{Option, none, some}

-- A function returns `-e` for an error `e`.
pub data Errno : Type 0 where
  eperm enoent eio ebadf enomem efault eexist enodev enotdir eisdir einval enametoolong enotsup :
      Errno

-- `panicked` is a kernel that stopped.
pub data Run {ℓ} (A : Type ℓ) : Type ℓ where
  ok : A → Run A
  panicked : Run A

infixl 5 ◌>>=◌
abbrev pub ◌>>=◌ {ℓ κ} : {A : Type ℓ} {B : Type κ} → Run A → (A → Run B) → Run B
ok a >>= f = f a
panicked >>= f = panicked

-- An access that went astray stops the kernel.
abbrev pub or_panic {ℓ} : {A : Type ℓ} → Option A → Run A
or_panic none = panicked
or_panic (some a) = ok a
