-- ===== src/AliasCommand/Relative.antt =====
-- cmds/alias.c: what is registered with an offset from the base.
use plo.Common.{
  ℕ, suc, ◌+◌, ◌<◌, ◌^◌, ◌≡◌, ◌≢◌, refl, ap, ◌∙◌, arith, Bool-cases, inl, inr, true, false, none,
  some, List, [], ◌∷◌, get_or, ltb, ◌==◌, if◌then◌else◌,
}
use plo.Common.Bits.{u32}
use plo.Common.CString.{Bytes}
use plo.Getopt.{Opt, initial, getopt, option, behind_char}
use plo.Phfs.Files.{Files}
use plo.Strtoul.{strtoul}
use plo.AliasCommand.{
  option_letters, Aliases, cmd_alias, option_loop, option_turn, reg_range, registered,
}

module _ {S : Type 0} (files : Files S) (cmd name offset size : Bytes) (s : Aliases S) where
  abbrev pub arguments : List Bytes
  arguments = cmd ∷ (b'-' ∷ b'r' ∷ []) ∷ name ∷ offset ∷ size ∷ []

  -- The state of lib/getopt.c behind the option.
  abbrev pub behind_option : Opt
  behind_option = record initial { optind = 2 }

  getopt_first : getopt 5 arguments option_letters initial ≡ (some b'r', behind_option)
  unfolding getopt option behind_char
  getopt_first = refl

  getopt_second :
      get_or name 0 0 ≢ b'-'
      → getopt 5 arguments option_letters behind_option ≡ (none, behind_option)
  unfolding getopt
  getopt_second plain =
      let named : (get_or name 0 0 == b'-') ≡ false = ground arith in rw (named, getopt) refl

  -- Behind the option.
  reg_range_relative :
      (strtoul offset 0).1 ≡ []
      → (strtoul size 0).1 ≡ []
      → (strtoul offset 0).0 < 2 ^ 32
      → s.base < 2 ^ 32
      → reg_range files arguments true (record s { opt = behind_option }) ≡ (
          if ltb ((strtoul offset 0).0 + s.base) (2 ^ 32)
          then registered
              (record s { opt = behind_option })
              (files.reg_alias
                (some name)
                ((strtoul offset 0).0 + s.base)
                (strtoul size 0).0
                s.files)
          else (1, record s { opt = behind_option }))
  unfolding reg_range
  reg_range_relative off sz word small =
      elim (Bool-cases (ltb ((strtoul offset 0).0 + s.base) (2 ^ 32))) [
        | inl fits ↦
            let sum : u32 ((strtoul offset 0).0 + s.base) ≡ (strtoul offset 0).0 + s.base =
              ground arith in
            let above : ltb ((strtoul offset 0).0 + s.base) (strtoul offset 0).0 ≡ false =
              ground arith in
            rw (off, sz, sum, above, fits, reg_range) refl
        | inr wraps ↦
            let below : ltb (u32 ((strtoul offset 0).0 + s.base)) (strtoul offset 0).0 ≡ true =
              ground arith in
            rw (off, sz, below, wraps, reg_range) refl
      ]

  -- `alias -r` with a name that does not start like an option, an offset and a size that are numbers,
  -- behind a reset of lib/getopt.c and with fuel for two turns: the file is registered at the offset
  -- from the base, or nothing is and the command fails if the sum is no address. The offset and the
  -- base are addresses.
  pub cmd_alias_relative :
      (fuel : ℕ)
      → s.opt ≡ initial
      → get_or name 0 0 ≢ b'-'
      → (strtoul offset 0).1 ≡ []
      → (strtoul size 0).1 ≡ []
      → (strtoul offset 0).0 < 2 ^ 32
      → s.base < 2 ^ 32
      → cmd_alias files (suc (suc fuel)) arguments s
        ≡ some (
            if ltb ((strtoul offset 0).0 + s.base) (2 ^ 32)
            then registered
                (record s { opt = behind_option })
                (files.reg_alias
                  (some name)
                  ((strtoul offset 0).0 + s.base)
                  (strtoul size 0).0
                  s.files)
            else (1, record s { opt = behind_option }))
  unfolding cmd_alias option_loop option_turn
  cmd_alias_relative fuel start plain off sz word small =
      ap
        (λ o.
          option_turn files (option_loop files (suc fuel) arguments) arguments false s
            (getopt 5 arguments option_letters o))
        start
      ∙ ap (λ r. option_turn files (option_loop files (suc fuel) arguments) arguments false s r)
          getopt_first
      ∙ ap
          (λ r.
            option_turn files (option_loop files fuel arguments) arguments true
              (record s { opt = behind_option }) r)
          (getopt_second plain)
      ∙ ap some (reg_range_relative off sz word small)
