-- ===== src/Rtt/Places.antt =====
-- devices/pipe-rtt/rtt.c: the places of a buffer that goes around, and the bytes from one to another.
use native.Mathlib.Nat.{mod-eq_of_lt, mod_self, add-mod_right}
use plo.Common.{
  ℕ, zero, suc, ◌+◌, ◌-◌, ◌%◌, ◌^◌, ◌<◌, ◌≡◌, ◌≢◌, ◌⊎◌, inl, inr, ap, ap₂, ◌∙◌, arith, true, false,
  Bool-cases, [], ◌∷◌, ◌++◌, length, set, get_or, ltb, leb, ◌==◌, if◌then◌else◌, get_or-set_self,
  get_or-set_ne,
}
use plo.Common.Bits.{u32}
use plo.Common.CString.{Bytes}
use plo.Rtt.{next_place}

-- How many bytes are held from `rd` to `wr`.
abbrev pub used : ℕ → ℕ → ℕ → ℕ
used sz rd wr = if leb rd wr then wr - rd else wr + sz - rd

-- The `n` bytes from a place on.
unfoldable pub items : Bytes → ℕ → ℕ → ℕ → Bytes
items buf sz at zero = []
items buf sz at (suc n) = get_or buf at 0 ∷ items buf sz (next_place sz at) n

-- The next place is one further on, or the first.
pub next_place-cases :
    (sz at : ℕ)
    → sz < 2 ^ 31
    → at < sz
    → (next_place sz at ≡ at + 1) × (at + 1 < sz) ⊎ (next_place sz at ≡ 0) × (at + 1 ≡ sz)
next_place-cases sz at small h = elim (Bool-cases (ltb (at + 1) sz)) [
  | inl inner ↦ inl (grind (arith, mod-eq_of_lt {n = at + 1} {m = sz}), ground arith)
  | inr last ↦
      inr (ap (λ t. t % sz) {x = u32 (at + 1)} {y = sz} (ground arith) ∙ mod_self sz, ground arith)
]

pub used-next_rd :
    (sz rd wr : ℕ)
    → sz < 2 ^ 31
    → rd < sz
    → wr < sz
    → rd ≢ wr
    → (used sz rd wr ≡ suc (used sz (next_place sz rd) wr)) × (next_place sz rd < sz)
used-next_rd sz rd wr small r w ne = elim (next_place-cases sz rd small r) [
  | inl (e, lt) ↦ rw e (ground arith, omega arith)
  | inr (e, last) ↦ rw e (ground arith, omega arith)
]

-- A byte that is put behind those held.
pub items-set :
    (n : ℕ) (buf : Bytes) (sz rd wr c : ℕ)
    → sz < 2 ^ 31
    → sz ≡ length buf
    → rd < sz
    → wr < sz
    → used sz rd wr ≡ n
    → items (set buf wr c) sz rd (suc n) ≡ items buf sz rd n ++ c ∷ []
unfolding items
items-set zero buf sz rd wr c small len r w e =
    let same : rd ≡ wr = ground arith in
    ap (λ b. b ∷ [])
      (ap (λ t. get_or (set buf wr c) t 0) same ∙ get_or-set_self buf wr c 0 (omega arith))
items-set (suc n) buf sz rd wr c small len r w e =
    let ne : rd ≢ wr = λ h. ground arith in
    let step = used-next_rd sz rd wr small r w ne in
    ap₂ (λ b bs. b ∷ bs) (get_or-set_ne buf wr rd c 0 ne)
      (items-set n buf sz (next_place sz rd) wr c small len step.1 w (omega (arith, step.0)))

-- The place before is one back, or the last.
pub prev_place :
    (sz rd : ℕ)
    → sz < 2 ^ 31
    → rd < sz
    → u32 (rd + sz + 0xffff_ffff) % sz ≡ (if rd == 0 then sz - 1 else rd - 1)
prev_place sz zero small r =
    ap (λ t. t % sz) {x = u32 (0 + sz + 0xffff_ffff)} {y = sz - 1} (omega arith)
    ∙ mod-eq_of_lt (omega arith)
prev_place sz (suc rd) small r =
    ap (λ t. t % sz) {x = u32 (suc rd + sz + 0xffff_ffff)} {y = rd + sz} (omega arith)
    ∙ add-mod_right rd sz
    ∙ mod-eq_of_lt (omega arith)
    ∙ ground arith

-- Whether there is room: the place before the reader's is not the writer's.
pub room_test :
    (sz rd wr : ℕ)
    → sz < 2 ^ 31
    → rd < sz
    → wr < sz
    → ((u32 (rd + sz + 0xffff_ffff) % sz == wr) ≡ true) × (used sz rd wr ≡ sz - 1)
      ⊎ ((u32 (rd + sz + 0xffff_ffff) % sz == wr) ≡ false)
        × (used sz rd (next_place sz wr) ≡ suc (used sz rd wr))
        × (next_place sz wr < sz)
        × (used sz rd wr < sz - 1)
room_test sz rd wr small r w =
    rw (prev_place sz rd small r) (elim (Bool-cases ((if rd == 0 then sz - 1 else rd - 1) == wr)) [
      | inl full ↦ inl (full, ground arith)
      | inr room ↦ elim (next_place-cases sz wr small w) [
        | inl (e, lt) ↦ inr (room, (rw e (ground arith)), omega arith, ground arith)
        | inr (e, last) ↦ inr (room, (rw e (ground arith)), omega arith, ground arith)
      ]
    ])
