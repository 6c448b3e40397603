-- ===== src/Strtoul.antt =====
-- lib/strtoul.c, where an `unsigned long` has 32 bits.
pub mod Value
use plo.Common.{
  ℕ, ◌+◌, ◌-◌, ◌*◌, Bool, true, false, ◌&&◌, ◌||◌, List, [], ◌∷◌, get_or, drop, ltb, leb, ◌==◌,
  if◌then◌else◌, bit_or,
}
use plo.Common.Bits.{u32}
use plo.Common.CString.{Bytes}
use plo.Ctype.{isdigit, isalpha}

-- The value of one character: `*nptr - '0'`, or for a letter what `t > 9` makes of it.
unfoldable pub digit : ℕ → ℕ
digit c =
    let t = u32 (c + 0x1_0000_0000 - b'0') in
    if ltb 9 t then u32 (bit_or c 0x20 + 0x1_0000_0000 - b'a' + 10) else t

-- The loop: the value, and the text that is left.
unfoldable pub digits : ℕ → ℕ → Bytes → ℕ × Bytes
unfolding digit isdigit isalpha
digits base v [] = (v, [])
digits base v (c ∷ cs) =
    let rest = digits base (u32 (v * base + digit c)) cs in
    if (isdigit c || isalpha c) && ltb (digit c) base then rest else (v, c ∷ cs)

-- The prefix `0x`, and the base that it or its absence stands for.
abbrev pub has_hex_prefix : ℕ → Bytes → Bool
has_hex_prefix base s =
    (base == 16 || base == 0) && get_or s 0 0 == b'0' && bit_or (get_or s 1 0) 0x20 == b'x'

-- `lib_strtoul`: the value, and what `*endptr` points to.
unfoldable pub strtoul : Bytes → ℕ → ℕ × Bytes
unfolding digits
strtoul s base =
    if has_hex_prefix base s
    then digits 16 0 (drop 2 s)
    else if base == 0 && get_or s 0 0 == b'0'
    then digits 8 0 s
    else if base == 0
    then digits 10 0 s
    else digits base 0 s

-- `lib_strtol`: the product with the sign is taken modulo the word.
unfoldable pub strtol : Bytes → ℕ → ℕ × Bytes
unfolding strtoul
strtol [] base = strtoul [] base
strtol (c ∷ s) base =
    if c == b'-'
    then (u32 (0x1_0000_0000 - (strtoul s base).0), (strtoul s base).1)
    else strtoul (c ∷ s) base
