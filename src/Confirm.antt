-- ===== src/Confirm.antt =====
-- lib/prompt.c: `lib_promptConfirm`. The bytes of the console are a list, and `none` is the wait for
-- the byte behind its end. What is printed is not modelled; where the wait for a byte ends by the
-- timeout, the byte is what the variable `c` holds then.
pub mod Typed
use plo.Common.{ℕ, Bool, true, false, Option, none, some, List, [], ◌∷◌, ◌==◌, if◌then◌else◌}
use plo.Common.CString.{Bytes}
use plo.Common.Result.{Result, ok, err}

-- `EINTR`
abbrev pub eintr : ℕ
eintr = 4

-- What a byte does where the text `left` of the answer is still to come: its last byte confirms.
abbrev pub after_byte : Bytes → (Bytes → Option (Result ℕ)) → ℕ → Option (Result ℕ)
after_byte [] again c = some (ok 0)
after_byte (a ∷ []) again c = if a == c then some (ok 1) else some (ok 0)
after_byte (a ∷ b ∷ left) again c = if a == c then again (b ∷ left) else some (ok 0)

-- The loop, and with the whole answer `lib_promptConfirm`; an answer that is NULL is the empty one.
unfoldable pub prompt_confirm : Bytes → Bytes → Option (Result ℕ)
prompt_confirm left [] = none
prompt_confirm left (c ∷ cs) =
    if c == 3 then some (err eintr) else after_byte left (λ l. prompt_confirm l cs) c
