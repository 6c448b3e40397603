-- ===== src/Tests/Buffers.antt =====
-- lib/cbuffer.c, lib/strtoul.c and lib/getopt.c on short texts.
use plo.Common.{
  ℕ, get_or, ◌+◌, ◌≤◌, ◌<◌, ◌≡◌, refl, ◌⊎◌, false, List, [], ◌∷◌, some, length, min, arith,
}
use plo.Common.CString.{Bytes}
use plo.Cbuffer.{Cbuffer, size, write, read}
use plo.Cbuffer.Indices.{IsValid}
use plo.Cbuffer.Count.{Wrote, write-Wrote}
use plo.Cbuffer.Fifo.{held}
use plo.Cbuffer.Taken.{read-held}
use plo.Getopt.{Opt, initial, behind_char, getopt}
use plo.Getopt.Parse.{getopt_advances}

-- Two of four bytes held, the second behind the turn.
abbrev half : Cbuffer
half = record { capacity = 4; tail = 1; head = 3; full = false; storage = 8 ∷ 0 ∷ 0 ∷ 7 ∷ [] }

half-IsValid : IsValid half
half-IsValid = record {
  storage_len = refl;
  small = omega arith;
  head_lt = omega arith;
  tail_lt = omega arith;
  full_eq = λ e. ground (arith, e);
}

write-Wrote_example : let (n, b') = write half (1 ∷ 2 ∷ 3 ∷ []) in Wrote half 3 n b'
write-Wrote_example = write-Wrote (1 ∷ 2 ∷ 3 ∷ []) half-IsValid

read-held_example :
    let (out, b') = read half 2 in
    IsValid b'
    × (length out ≡ min 2 (size half))
    × (size b' + length out ≡ size half)
    × ((i : ℕ) → i < length out → get_or out i 0 ≡ held half i)
    × ((i : ℕ) → held b' i ≡ held half (i + length out))
read-held_example = read-held 2 half-IsValid

half_size : size half ≡ 2
unfolding size
half_size = refl

read_run : (read half 2).0 ≡ 7 ∷ 8 ∷ []
unfolding read size
read_run = refl

-- `app -x`, with the option `x`
abbrev arguments : List Bytes
arguments = (b'a' ∷ []) ∷ (b'-' ∷ b'x' ∷ []) ∷ []

abbrev behind_x : Opt
behind_x = record initial { optind = 2; optwhere = 1 }

getopt_run : getopt 2 arguments (b'x' ∷ []) initial ≡ (some b'x', behind_x)
unfolding getopt behind_char
getopt_run = refl

getopt_advances_example :
    ((behind_x.optind ≡ initial.optind) × (behind_x.optwhere ≡ initial.optwhere + 1))
    ⊎ ((initial.optind < behind_x.optind) × (behind_x.optind ≤ 2) × (behind_x.optwhere ≡ 1))
getopt_advances_example =
    getopt_advances 2 arguments (b'x' ∷ []) initial b'x' behind_x (omega arith) (omega arith)
      getopt_run
