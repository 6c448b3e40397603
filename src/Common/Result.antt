-- ===== src/Common/Result.antt =====
-- The `int` results of the C functions: `ok` for a result that is not negative, and `err n` for
-- the error code `-n`, with the codes of lib/errno.h.
use Prim.Native.Nat.{ℕ}
use mathlib.Core.Option.{Option, none, some}

pub data Result {ℓ} (A : Type ℓ) : Type ℓ where
  ok : A → Result A
  err : ℕ → Result A

abbrev pub eio : ℕ
eio = 5

abbrev pub enxio : ℕ
enxio = 6

abbrev pub enomem : ℕ
enomem = 12

abbrev pub efault : ℕ
efault = 14

abbrev pub enodev : ℕ
enodev = 19

abbrev pub einval : ℕ
einval = 22

abbrev pub enosys : ℕ
enosys = 35

-- What follows a call, which an error ends.
abbrev pub next {ℓ} :
    {S : Type 0} {A B : Type ℓ}
    → (A → S → Option (Result B × S))
    → Result A × S
    → Option (Result B × S)
next f (err e, s) = some (err e, s)
next f (ok a, s) = f a s

abbrev pub next? {ℓ} :
    {S : Type 0} {A B : Type ℓ}
    → (A → S → Option (Result B × S))
    → Option (Result A × S)
    → Option (Result B × S)
next? f none = none
next? f (some r) = next f r
