-- ===== src/AliasCommand.antt =====
-- cmds/alias.c: the command `alias`. `none` is an option loop that has run out of fuel.
pub mod Relative
use plo.Common.{
  ℕ, zero, suc, ◌+◌, ◌-◌, Bool, true, false, not, Option, none, some, List, [], ◌∷◌, length, get_or,
  ltb, ◌==◌, if◌then◌else◌,
}
use plo.Common.Bits.{u32}
use plo.Common.CString.{Bytes}
use plo.Common.Result.{Result, ok, err}
use plo.Getopt.{Opt, getopt}
use plo.MapCommand.{has_more}
use plo.Phfs.Files.{Files}
use plo.Strtoul.{strtoul, strtol}

-- `aliasBase` and the globals of lib/getopt.c, beside the state of phfs/phfs.c.
pub record Aliases (S : Type 0) : Type 0 where
  pub base : ℕ
  pub opt : Opt
  pub files : S

-- `"rb:"`
abbrev pub option_letters : Bytes
option_letters = b'r' ∷ b'b' ∷ b':' ∷ []

-- `optarg`
abbrev pub text_of : Option Bytes → Bytes
text_of none = []
text_of (some t) = t

-- The option `b`, with or without an option `r` before it.
unfoldable pub set_base : {S : Type 0} → ℕ → Bool → Aliases S → ℕ × Aliases S
set_base argc relative s =
    let base = strtol (text_of s.opt.optarg) 0 in
    if not (argc == 3)
    then (1, s)
    else if has_more base.1
    then (1, s)
    else if relative
    then (0, record s { base = u32 (s.base + base.0) })
    else (0, record s { base = base.0 })

-- The result of `phfs_aliasReg`.
abbrev pub registered : {S : Type 0} → Aliases S → Result ℕ × S → ℕ × Aliases S
registered s (err e, fs) = (1, record s { files = fs })
registered s (ok _, fs) = (0, record s { files = fs })

module _ {S : Type 0} (files : Files S) where
  -- Behind the options.
  unfoldable pub reg_range : List Bytes → Bool → Aliases S → ℕ × Aliases S
  reg_range argv relative s =
      let name = get_or argv s.opt.optind [] in
      let addr = strtoul (get_or argv (s.opt.optind + 1) []) 0 in
      let sz = strtoul (get_or argv (s.opt.optind + 2) []) 0 in
      if not (length argv == s.opt.optind + 3)
      then (1, s)
      else if has_more addr.1
      then (1, s)
      else if has_more sz.1
      then (1, s)
      else if not relative
      then registered s (files.reg_alias (some name) addr.0 sz.0 s.files)
      else if ltb (u32 (addr.0 + s.base)) addr.0
      then (1, s)
      else registered s (files.reg_alias (some name) (u32 (addr.0 + s.base)) sz.0 s.files)

  -- One turn of the loop over the options, for the result of `lib_getopt`.
  unfoldable pub option_turn :
      (Bool → Aliases S → Option (ℕ × Aliases S))
      → List Bytes
      → Bool
      → Aliases S
      → Option ℕ × Opt
      → Option (ℕ × Aliases S)
  unfolding set_base reg_range
  option_turn again argv relative s (none, o) =
      some (reg_range argv relative (record s { opt = o }))
  option_turn again argv relative s (some c, o) = elim (c == b'r') [
    | true ↦ again true (record s { opt = o })
    | false ↦ some (
        if c == b'b'
        then set_base (length argv) relative (record s { opt = o })
        else (1, record s { opt = o }))
  ]

  unfoldable pub option_loop : ℕ → List Bytes → Bool → Aliases S → Option (ℕ × Aliases S)
  unfolding getopt option_turn
  option_loop zero argv relative s = none
  option_loop (suc fuel) argv relative s =
      option_turn (option_loop fuel argv) argv relative s
        (getopt (length argv) argv option_letters s.opt)

  -- `cmd_alias`; without arguments it prints the files.
  unfoldable pub cmd_alias : ℕ → List Bytes → Aliases S → Option (ℕ × Aliases S)
  unfolding option_loop
  cmd_alias fuel argv s =
      let out = option_loop fuel argv false s in if length argv == 1 then some (0, s) else out
