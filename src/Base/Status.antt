-- ===== src/Base/Status.antt =====
-- The status codes of include/errno.h, and the result of a call that returns a status.
use mathlib.Core.Path.{◌≡◌, refl}
use mathlib.Core.Logic.{◌⊎◌, inl, inr}

pub data Errno : Type 0 where
  enomem : Errno
  efault : Errno
  eexist : Errno
  einval : Errno
  eoverflow : Errno

-- `ok v`: the call returned 0, with `v` in its out parameter. `err e`: it returned the code `e`.
pub data Result {ℓ} (A : Type ℓ) : Type ℓ where
  ok : A → Result A
  err : Errno → Result A

pub Result-cases {ℓ} :
    {A : Type ℓ} (r : Result A) → ((e : Errno) × (r ≡ err e)) ⊎ ((a : A) × (r ≡ ok a))
Result-cases (ok a) = inr (a, refl)
Result-cases (err e) = inl (e, refl)
