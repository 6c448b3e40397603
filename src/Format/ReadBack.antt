-- ===== src/Format/ReadBack.antt =====
-- lib/strtoul.c: how runs of digits, such as lib/format.c prints, are read with base 0.
use plo.Common.{
  ℕ, zero, suc, ◌+◌, ◌-◌, ◌/◌, ◌%◌, ◌^◌, ◌≤◌, ◌<◌, ◌≡◌, ◌≢◌, refl, ap, ◌∙◌, arith, Bool, Bool-cases,
  true, false, not, ◌||◌, ◌==◌, if◌then◌else◌, [], ◌∷◌, ◌++◌, get_or, inl, inr, bit_or,
}
use native.Mathlib.Nat.{div-add-mod', pow-suc, pow-zero, mod-lt, mod-eq_of_lt, div-lt_iff_lt-mul}
use plo.Common.CString.{Bytes}
use plo.Ctype.{isdigit, isalpha, islower, isupper}
use plo.Strtoul.{digit, digits, strtoul}
use plo.Strtoul.Value.{value, is_digit, AllDigits, Stops, digits-value}
use plo.Format.{digit_char, put_digits}
use plo.Format.Value.{all_below, all_below-at}

abbrev only_zero : Bool → ℕ → Bool
only_zero large d = d == 0 || not (digit_char large d == b'0')

only_zero-all : (large : Bool) → all_below 16 (only_zero large) ≡ true
unfolding digit_char
only_zero-all true = refl
only_zero-all false = refl

-- The characters that the text starts with: no zero where the number is none.
first_char :
    (large : Bool) (base n : ℕ)
    → 2 ≤ base
    → base ≤ 16
    → n < base
    → n ≢ 0
    → (digit_char large (n % base) == b'0') ≡ false
first_char large base n two few h ne = ground (
  arith,
  mod-eq_of_lt {n = n} {m = base} h,
  all_below-at 16 n (only_zero large) (only_zero-all large) (omega arith),
)

put_digits-last :
    (large : Bool) (base k n : ℕ) (tmp : Bytes)
    → 2 ≤ base
    → base ≤ 16
    → n ≢ 0
    → (n / base == 0) ≡ true
    → (get_or (put_digits large base k (n / base) (digit_char large (n % base) ∷ tmp)) 0 0 == b'0')
      ≡ false
unfolding put_digits
put_digits-last large base zero n tmp two few ne z =
    first_char large base n two few
      (ground (arith, div-add-mod' n base, mod-lt n {m = base} (omega arith))) ne
put_digits-last large base (suc k) n tmp two few ne z =
    rw (z, put_digits)
      (first_char large base n two few
        (ground (arith, div-add-mod' n base, mod-lt n {m = base} (omega arith))) ne)

pub put_digits-first :
    (large : Bool) (base fuel n : ℕ) (tmp : Bytes)
    → 2 ≤ base
    → base ≤ 16
    → n < base ^ fuel
    → n ≢ 0
    → (get_or (put_digits large base fuel n tmp) 0 0 == b'0') ≡ false
unfolding put_digits
put_digits-first large base zero n tmp two few h ne = absurd (omega (arith, pow-zero base))
put_digits-first large base (suc fuel) n tmp two few h ne = elim (Bool-cases (n == 0)) [
  | inl e ↦ absurd (ground arith)
  | inr e ↦
      rw (e, put_digits)
        (elim (Bool-cases (n / base == 0)) [
          | inl z ↦ put_digits-last large base fuel n tmp two few ne z
          | inr more ↦
              put_digits-first large base fuel (n / base) (digit_char large (n % base) ∷ tmp) two
                few ((div-lt_iff_lt-mul (omega arith)).1 (omega (arith, pow-suc base fuel)))
                (ground arith)
        ])
]

abbrev pub is_x : ℕ → Bool
is_x c = bit_or c 0x20 == b'x'

abbrev upper_bit : ℕ → Bool
upper_bit d = not (is_x (d + b'0'))

upper_bit-all : all_below 10 upper_bit ≡ true
upper_bit-all = refl

-- A digit is not the letter of the prefix `0x`.
digit-not_x : (base c : ℕ) → base ≤ 16 → is_digit base c ≡ true → is_x c ≡ false
unfolding digit isdigit isalpha islower isupper
digit-not_x base c h e = ground (arith, all_below-at 10 (c - b'0') upper_bit upper_bit-all)

-- The text goes on with no digit, nor with the letter of the prefix.
pub record Ends (rest : Bytes) : Type 0 where
  pub stops : Stops 16 rest
  pub not_x : is_x (get_or rest 0 0) ≡ false

Stops-fewer : (base : ℕ) (rest : Bytes) → base ≤ 16 → Stops 16 rest → Stops base rest
Stops-fewer base [] h s = tt
Stops-fewer base (c ∷ rest) h s = ground arith

-- A run of digits with the value `m`, read by the loop of lib/strtoul.c.
digits-back :
    (base m : ℕ) (ds rest : Bytes)
    → base ≤ 16
    → AllDigits base ds
    → Ends rest
    → value base 0 ds ≡ m
    → m < 0x1_0000_0000
    → digits base 0 (ds ++ rest) ≡ (m, rest)
digits-back base m ds rest few a e v h =
    digits-value base ds rest 0 a (Stops-fewer base rest few e.stops)
    ∙ ap (λ w. (w, rest)) (omega arith)

not_x-digits :
    (base : ℕ) (ds rest : Bytes)
    → base ≤ 16
    → AllDigits base ds
    → Ends rest
    → is_x (get_or (ds ++ rest) 0 0) ≡ false
not_x-digits base [] rest few a e = e.not_x
not_x-digits base (d ∷ ds) rest few a e = digit-not_x base d few a.0

-- The same with base 0, for what stands behind a zero and for what starts with another digit.
pub strtoul-octal :
    (m : ℕ) (ds rest : Bytes)
    → AllDigits 8 ds
    → Ends rest
    → value 8 0 ds ≡ m
    → m < 0x1_0000_0000
    → strtoul (b'0' ∷ ds ++ rest) 0 ≡ (m, rest)
unfolding strtoul digit isdigit isalpha
strtoul-octal m ds rest a e v h =
    rw (not_x-digits 8 ds rest (omega arith) a e, strtoul)
      (digits-back 8 m (b'0' ∷ ds) rest (omega arith) (refl, a) e v h)

pub strtoul-decimal :
    (m : ℕ) (ds rest : Bytes)
    → AllDigits 10 ds
    → (get_or ds 0 0 == b'0') ≡ false
    → m ≢ 0
    → Ends rest
    → value 10 0 ds ≡ m
    → m < 0x1_0000_0000
    → strtoul (ds ++ rest) 0 ≡ (m, rest)
unfolding strtoul
strtoul-decimal m [] rest a z ne e v h = absurd (omega arith)
strtoul-decimal m (d ∷ ds) rest a z ne e v h =
    rw (z, strtoul) (digits-back 10 m (d ∷ ds) rest (omega arith) a e v h)

pub strtoul-hex :
    (m : ℕ) (large : Bool) (ds rest : Bytes)
    → AllDigits 16 ds
    → Ends rest
    → value 16 0 ds ≡ m
    → m < 0x1_0000_0000
    → strtoul (b'0' ∷ (if large then b'X' else b'x') ∷ ds ++ rest) 0 ≡ (m, rest)
unfolding strtoul
strtoul-hex m true ds rest a e v h = digits-back 16 m ds rest (omega arith) a e v h
strtoul-hex m false ds rest a e v h = digits-back 16 m ds rest (omega arith) a e v h
