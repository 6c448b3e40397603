-- ===== src/Strtoul/Value.antt =====
-- What `lib_strtoul` reads: the value of the longest run of digits of the base.
use plo.Common.{
  ℕ, ◌+◌, ◌*◌, ◌≡◌, ◌≢◌, refl, ap, ◌∙◌, arith, Bool, true, false, ◌&&◌, ◌||◌, [], ◌∷◌, ◌++◌, ltb,
}
use native.Mathlib.Nat.{div-add-mod}
use plo.Common.Bits.{u32}
use plo.Common.CString.{Bytes}
use plo.Ctype.{isdigit, isalpha}
use plo.Strtoul.{digit, digits, strtoul}

-- The number that a run of digits stands for, behind one of value `v`; it is not bounded.
abbrev pub value : ℕ → ℕ → Bytes → ℕ
value base v [] = v
value base v (c ∷ cs) = value base (v * base + digit c) cs

abbrev pub is_digit : ℕ → ℕ → Bool
is_digit base c = (isdigit c || isalpha c) && ltb (digit c) base

abbrev pub AllDigits : ℕ → Bytes → Type 0
AllDigits base [] = Unit
AllDigits base (c ∷ cs) = (is_digit base c ≡ true) × AllDigits base cs

-- The text goes on with no digit of the base.
abbrev pub Stops : ℕ → Bytes → Type 0
Stops base [] = Unit
Stops base (c ∷ cs) = is_digit base c ≡ false

wrap_step : (v base x : ℕ) → u32 (u32 v * base + x) ≡ u32 (v * base + x)
wrap_step v base x = omega (arith, ap (λ (t : ℕ). t * base) (div-add-mod v 0x1_0000_0000))

-- The loop reads a run of digits to its end and no further, and gives its value modulo 2 ^ 32.
pub digits-value :
    (base : ℕ) (ds rest : Bytes) (v : ℕ)
    → AllDigits base ds
    → Stops base rest
    → digits base (u32 v) (ds ++ rest) ≡ (u32 (value base v ds), rest)
unfolding digits
digits-value base [] [] v a s = refl
digits-value base [] (c ∷ rest) v a s = rw s
digits-value base (d ∷ ds) rest v a s = rw a.0 (
    ap (λ w. digits base w (ds ++ rest)) (wrap_step v base (digit d))
    ∙ digits-value base ds rest (v * base + digit d) a.1 s)

-- With base 0 the prefix `0x` reads hexadecimal: `lib_strtoul` reads the run of digits to its end,
-- and gives its value modulo 2 ^ 32.
pub strtoul-value_hex :
    (ds rest : Bytes)
    → AllDigits 16 ds
    → Stops 16 rest
    → strtoul (b'0' ∷ b'x' ∷ (ds ++ rest)) 0 ≡ (u32 (value 16 0 ds), rest)
unfolding strtoul
strtoul-value_hex ds rest a s = digits-value 16 ds rest 0 a s

-- With base 0 and a first digit that is not 0 it reads decimal.
pub strtoul-value_decimal :
    (d : ℕ) (ds rest : Bytes)
    → d ≢ b'0'
    → AllDigits 10 (d ∷ ds)
    → Stops 10 rest
    → strtoul (d ∷ (ds ++ rest)) 0 ≡ (u32 (value 10 0 (d ∷ ds)), rest)
unfolding strtoul
strtoul-value_decimal d ds rest ne a s = ground (arith, digits-value 10 (d ∷ ds) rest 0)
