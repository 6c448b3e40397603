-- ===== src/Format/Value.antt =====
-- lib/format.c: the digits that are printed are read back as the number.
use plo.Common.{
  ℕ, zero, suc, ◌+◌, ◌*◌, ◌/◌, ◌%◌, ◌^◌, ◌≤◌, ◌<◌, ◌≡◌, refl, ap, ◌∙◌, arith, Bool, Bool-cases,
  true, false, ◌&&◌, ◌==◌, ◌∷◌, length, inl, inr,
}
use native.Mathlib.Nat.{
  div-add-mod', add-mul, mul_assoc, pow-suc, pow-zero, mod-lt, div-lt_iff_lt-mul,
}
use plo.Common.CString.{Bytes}
use plo.Ctype.{isdigit, isalpha, islower, isupper}
use plo.Strtoul.{digit}
use plo.Strtoul.Value.{value, is_digit, AllDigits}
use plo.Format.{digit_char, put_digits, put_fixed}

-- A test that holds at each number below a bound.
abbrev pub all_below : ℕ → (ℕ → Bool) → Bool
all_below zero p = true
all_below (suc k) p = p k && all_below k p

pub all_below-at : (k n : ℕ) (p : ℕ → Bool) → all_below k p ≡ true → n < k → p n ≡ true
all_below-at zero n p h lt = absurd (omega arith)
all_below-at (suc k) n p h lt = ground (arith, all_below-at k n p)

-- A digit is read back by lib/strtoul.c.
abbrev reads_back : Bool → ℕ → Bool
reads_back large d = digit (digit_char large d) == d && is_digit 16 (digit_char large d)

reads_back-all : (large : Bool) → all_below 16 (reads_back large) ≡ true
unfolding digit digit_char isdigit isalpha islower isupper
reads_back-all true = refl
reads_back-all false = refl

pub digit-digit_char : (large : Bool) (d : ℕ) → d < 16 → digit (digit_char large d) ≡ d
digit-digit_char large d h =
    ground (arith, all_below-at 16 d (reads_back large) (reads_back-all large) h)

pub is_digit-digit_char :
    (large : Bool) (base d : ℕ) → d < base → base ≤ 16 → is_digit base (digit_char large d) ≡ true
is_digit-digit_char large base d h u = ground (
  arith,
  all_below-at 16 d (reads_back large) (reads_back-all large) (omega arith),
  digit-digit_char large d (omega arith),
)

module _ (large : Bool) (base : ℕ) (two : 2 ≤ base) (few : base ≤ 16) where
  digit-mod : (n : ℕ) → digit (digit_char large (n % base)) ≡ n % base
  digit-mod n = digit-digit_char large (n % base) (omega (arith, mod-lt n {m = base} (omega arith)))

  -- One digit off the number and onto the text.
  value-push :
      (n : ℕ) (tmp : Bytes)
      → value base (n / base) (digit_char large (n % base) ∷ tmp) ≡ value base n tmp
  value-push n tmp =
      ap (λ v. value base v tmp) (ap (λ d. n / base * base + d) (digit-mod n) ∙ div-add-mod' n base)

  pub value-put_digits :
      (fuel n : ℕ) (tmp : Bytes)
      → n < base ^ fuel
      → value base 0 (put_digits large base fuel n tmp) ≡ value base n tmp
  unfolding put_digits
  value-put_digits zero n tmp h = ap (λ v. value base v tmp) (omega (arith, pow-zero base))
  value-put_digits (suc fuel) n tmp h = elim (Bool-cases (n == 0)) [
    | inl e ↦ rw (e, put_digits) (ap (λ v. value base v tmp) (ground arith))
    | inr e ↦
        rw (e, put_digits)
          (value-put_digits fuel (n / base) (digit_char large (n % base) ∷ tmp)
              ((div-lt_iff_lt-mul (omega arith)).1 (omega (arith, pow-suc base fuel)))
            ∙ value-push n tmp)
  ]

  pub value-put_fixed :
      (k n w : ℕ) (tmp : Bytes)
      → value base (w + (put_fixed large base k n tmp).0) (put_fixed large base k n tmp).1
        ≡ value base (w * base ^ k + n) tmp
  unfolding put_fixed
  value-put_fixed zero n w tmp =
      ap (λ v. value base v tmp) (omega (arith, ap (λ (p : ℕ). w * p) (pow-zero base)))
  value-put_fixed (suc k) n w tmp =
      value-put_fixed k (n / base) w (digit_char large (n % base) ∷ tmp)
      ∙ ap (λ v. value base v tmp)
          (omega (
            arith,
            ap (λ d. (w * base ^ k + n / base) * base + d) (digit-mod n),
            add-mul (w * base ^ k) (n / base) base,
            mul_assoc w (base ^ k) base,
            ap (λ (p : ℕ). w * p) (pow-suc base k),
            div-add-mod' n base,
          ))

  pub AllDigits-put_digits :
      (fuel n : ℕ) (tmp : Bytes)
      → AllDigits base tmp
      → AllDigits base (put_digits large base fuel n tmp)
  unfolding put_digits
  AllDigits-put_digits zero n tmp a = a
  AllDigits-put_digits (suc fuel) n tmp a = elim (Bool-cases (n == 0)) [
    | inl e ↦ rw (e, put_digits) a
    | inr e ↦
        rw (e, put_digits)
          (AllDigits-put_digits fuel (n / base) (digit_char large (n % base) ∷ tmp)
            (is_digit-digit_char large base (n % base) (mod-lt n {m = base} (omega arith)) few, a))
  ]

  pub AllDigits-put_fixed :
      (k n : ℕ) (tmp : Bytes) → AllDigits base tmp → AllDigits base (put_fixed large base k n tmp).1
  unfolding put_fixed
  AllDigits-put_fixed zero n tmp a = a
  AllDigits-put_fixed (suc k) n tmp a =
      AllDigits-put_fixed k (n / base) (digit_char large (n % base) ∷ tmp)
        (is_digit-digit_char large base (n % base) (mod-lt n {m = base} (omega arith)) few, a)

  pub length-put_digits :
      (k fuel n : ℕ) (tmp : Bytes)
      → n < base ^ k
      → length (put_digits large base fuel n tmp) ≤ k + length tmp
  unfolding put_digits
  length-put_digits k zero n tmp h = omega arith
  length-put_digits zero (suc fuel) n tmp h = ground (arith, pow-zero base)
  length-put_digits (suc k) (suc fuel) n tmp h = ground (
    arith,
    length-put_digits k fuel (n / base) (digit_char large (n % base) ∷ tmp)
        ((div-lt_iff_lt-mul (omega arith)).1 (omega (arith, pow-suc base k))),
  )

  pub length-put_fixed :
      (k n : ℕ) (tmp : Bytes) → length (put_fixed large base k n tmp).1 ≡ k + length tmp
  unfolding put_fixed
  length-put_fixed zero n tmp = omega arith
  length-put_fixed (suc k) n tmp =
      omega (arith, length-put_fixed k (n / base) (digit_char large (n % base) ∷ tmp))
