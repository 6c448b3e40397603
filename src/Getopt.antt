-- ===== src/Getopt.antt =====
-- lib/getopt.c. The texts of `argv` are lists of bytes; what the source reads at or behind a
-- text's end is NUL. A printed message is not modelled.
pub mod Parse
use plo.Common.{
  ℕ, ◌+◌, ◌-◌, Bool, true, false, not, ◌&&◌, ◌||◌, List, [], ◌∷◌, Option, none, some, ltb, leb,
  ◌==◌, if◌then◌else◌, length, get_or, drop,
}
use plo.Common.CString.{Bytes}

-- The globals `optarg`, `optind`, `opterr` and `optopt`, and `getopt_common.optwhere`. A negative
-- `optind` is taken for 0: both make the next call start afresh.
pub record Opt : Type 0 where
  pub optarg : Option Bytes
  pub optind : ℕ
  pub opterr : Bool
  pub optopt : ℕ
  pub optwhere : ℕ

-- `lib_getoptReset`
abbrev pub initial : Opt
initial = record { optarg = none; optind = 1; opterr = true; optopt = 0; optwhere = 1 }

-- `argv[i][j]`
abbrev pub char_at : List Bytes → ℕ → ℕ → ℕ
char_at argv i j = get_or (get_or argv i []) j 0

-- What follows the first `c` of a text, as `hal_strchr(s, c) + 1`; the NUL at its end is found too.
unfoldable pub behind_char : ℕ → Bytes → Option Bytes
behind_char c [] = if c == 0 then some [] else none
behind_char c (x ∷ xs) = let rest = behind_char c xs in if x == c then some xs else rest

-- `optind++; getopt_common.optwhere = 1;`
abbrev pub next_arg : Opt → Opt
next_arg o = record o { optind = o.optind + 1; optwhere = 1 }

-- The option `opt` is not in `optstring`. `o.optwhere` is already behind it.
abbrev pub unknown : List Bytes → ℕ → Opt → Option ℕ × Opt
unknown argv opt o =
    let o' = record o { optopt = opt } in
    (some b'?', if char_at argv o.optind o.optwhere == 0 then next_arg o' else o')

-- The option takes an argument; `spec` is what stands behind its colon in `optstring`.
abbrev pub with_arg : ℕ → List Bytes → Bytes → Bool → ℕ → Opt → Option ℕ × Opt
with_arg argc argv spec leading opt o =
    if not (char_at argv o.optind o.optwhere == 0)
    then (
      some opt,
      next_arg (record o { optarg = some (drop o.optwhere (get_or argv o.optind [])) }),
    )
    else if get_or spec 0 0 == b':'
    then (some opt, next_arg (record o { optarg = none }))
    else if ltb (o.optind + 1) argc
    then (
      some opt,
      next_arg (record o { optarg = some (get_or argv (o.optind + 1) []); optind = o.optind + 1 }),
    )
    else (some (if leading then b':' else b'?'), next_arg (record o { optopt = opt }))

-- The option `opt`, with what stands behind it in `optstring`.
abbrev pub known : ℕ → List Bytes → Bytes → Bool → ℕ → Opt → Option ℕ × Opt
known argc argv spec leading opt o =
    if get_or spec 0 0 == b':'
    then with_arg argc argv (drop 1 spec) leading opt o
    else if not (char_at argv o.optind o.optwhere == 0)
    then (some opt, o)
    else (some opt, next_arg o)

-- One option letter of the current argument.
unfoldable pub option : ℕ → List Bytes → Bytes → Opt → Option ℕ × Opt
unfolding behind_char
option argc argv optstring o =
    let opt = char_at argv o.optind o.optwhere in
    let o' = record o { optwhere = o.optwhere + 1 } in
    elim (behind_char opt optstring) [
      | none ↦ unknown argv opt o'
      | some spec ↦ known argc argv spec (get_or optstring 0 0 == b':') opt o'
    ]

abbrev pub reset : Opt → Opt
reset o = if o.optind == 0 then initial else o

-- `lib_getopt`; `none` is the result -1.
unfoldable pub getopt : ℕ → List Bytes → Bytes → Opt → Option ℕ × Opt
unfolding option
getopt argc argv optstring o =
    let o' = reset o in
    if argc == 0 || leb argc o'.optind
    then (none, o')
    else if not (char_at argv o'.optind 0 == b'-') || char_at argv o'.optind 1 == 0
    then (none, o')
    else if char_at argv o'.optind 1 == b'-' && char_at argv o'.optind 2 == 0
    then (none, record o' { optind = o'.optind + 1 })
    else option argc argv optstring o'
