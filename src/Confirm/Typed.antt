-- ===== src/Confirm/Typed.antt =====
-- lib/prompt.c: what confirms.
use plo.Common.{
  ℕ, ◌≡◌, ◌≢◌, ◌↔◌, refl, ap, ◌∙◌, arith, Bool-cases, true, false, some, [], ◌∷◌, ◌++◌, ◌==◌, inl,
  inr,
}
use plo.Common.CString.{Bytes}
use plo.Common.Result.{ok}
use plo.Confirm.{prompt_confirm}

-- A text without the byte of ^C.
abbrev pub NoAbort : Bytes → Type 0
NoAbort [] = Unit
NoAbort (c ∷ cs) = (c ≢ 3) × NoAbort cs

self_equal : (a : ℕ) → (a == a) ≡ true
self_equal a = ground arith

prompt_confirm-typed :
    (a : ℕ) (answer rest : Bytes)
    → NoAbort (a ∷ answer)
    → prompt_confirm (a ∷ answer) (a ∷ answer ++ rest) ≡ some (ok 1)
unfolding prompt_confirm
prompt_confirm-typed a [] rest v =
    let plain : (a == 3) ≡ false = ground (arith, v.0) in
    rw (plain, self_equal a, prompt_confirm) refl
prompt_confirm-typed a (b ∷ answer) rest v =
    let plain : (a == 3) ≡ false = ground (arith, v.0) in
    rw (plain, self_equal a, prompt_confirm) (prompt_confirm-typed b answer rest v.1)

prompt_confirm-only :
    (left input : Bytes)
    → prompt_confirm left input ≡ some (ok 1)
    → (rest : Bytes) × (input ≡ left ++ rest)
unfolding prompt_confirm
prompt_confirm-only left [] h = absurd (ground arith)
prompt_confirm-only [] (c ∷ cs) h = (c ∷ cs, refl)
prompt_confirm-only (a ∷ []) (c ∷ cs) h = elim (Bool-cases (c == 3)) [
  | inl abort ↦ absurd (ground (arith, rw (abort, prompt_confirm) at h))
  | inr plain ↦ elim (Bool-cases (a == c)) [
    | inl same ↦ (cs, ground arith)
    | inr other ↦ absurd (ground (arith, rw (plain, other, prompt_confirm) at h))
  ]
]
prompt_confirm-only (a ∷ b ∷ left) (c ∷ cs) h = elim (Bool-cases (c == 3)) [
  | inl abort ↦ absurd (ground (arith, rw (abort, prompt_confirm) at h))
  | inr plain ↦ elim (Bool-cases (a == c)) [
    | inl same ↦
        let rest = prompt_confirm-only (b ∷ left) cs (rw (plain, same, prompt_confirm) at h) in
        let first : c ≡ a = ground arith in
        (rest.0, ap (λ x. x ∷ cs) first ∙ ap (λ r. a ∷ r) rest.1)
    | inr other ↦ absurd (ground (arith, rw (plain, other, prompt_confirm) at h))
  ]
]

-- Where an answer without the byte of ^C is asked for that is not empty, `lib_promptConfirm` confirms
-- exactly when the answer is typed before anything else.
pub prompt_confirm_iff :
    (a : ℕ) (answer input : Bytes)
    → NoAbort (a ∷ answer)
    → (prompt_confirm (a ∷ answer) input ≡ some (ok 1))
      ↔ ((rest : Bytes) × (input ≡ a ∷ answer ++ rest))
prompt_confirm_iff a answer input v = (
  prompt_confirm-only (a ∷ answer) input,
  λ h. ap (prompt_confirm (a ∷ answer)) h.1 ∙ prompt_confirm-typed a answer h.0 v,
)
