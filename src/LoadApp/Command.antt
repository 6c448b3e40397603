-- ===== src/LoadApp/Command.antt =====
-- cmds/app.c: cmd_app.
use plo.Common.{
  ℕ, ◌+◌, ◌-◌, not, ◌&&◌, ◌||◌, Option, none, some, List, [], ◌∷◌, length, get_or, ltb, ◌==◌,
  if◌then◌else◌, bit_or,
}
use plo.Common.CString.{Bytes}
use plo.Common.Result.{Result, ok, err}
use plo.Phfs.{Handler}
use plo.Phfs.Files.{Files}
use plo.Syspage.State.{Target}
use plo.Syspage.Progs.{flag_exec}
use plo.LoadApp.{Loader, Places}
use plo.LoadApp.Load.{app_load, flag_no_copy}

-- `argv[i]`, whose bytes behind its end are not read.
abbrev pub arg : List Bytes → ℕ → Bytes
arg argv i = get_or argv i []

abbrev pub char : Bytes → ℕ → ℕ
char s i = get_or s i 0

-- `ARG_2`: the flags, and the index of the argument behind them.
unfoldable pub read_options : Bytes → Option (ℕ × ℕ)
read_options s =
    if not (char s 0 == b'-')
    then some (0, 2)
    else if bit_or (char s 1) 0x20 == b'x' && char s 2 == 0
    then some (flag_exec, 3)
    else if bit_or (char s 1) 0x20 == b'x' && bit_or (char s 2) 0x20 == b'n' && char s 3 == 0
    then some (flag_exec + flag_no_copy, 3)
    else none

-- The name of the program: the argument up to a semicolon.
unfoldable pub prog_name : Bytes → Bytes
prog_name [] = []
prog_name (c ∷ cs) = let rest = prog_name cs in if c == b';' then [] else c ∷ rest

module _ {S : Type 0} (files : Files S) (places : Places S) (t : Target) (page : ℕ) (hdr : Bytes)
    (stale : ℕ) where
  -- `phfs_close`, and the exit code.
  abbrev pub close_with : ℕ → Handler → Loader S → Option (ℕ × Loader S)
  close_with code h s = some (code, record s { files = (files.close_file h s.files).1 })

  abbrev pub loaded : Handler → Option (Result ℕ × Loader S) → Option (ℕ × Loader S)
  loaded h none = none
  loaded h (some (err e, s)) = close_with 1 h s
  loaded h (some (ok _, s)) = close_with 0 h s

  -- Behind `phfs_stat`
  unfoldable pub with_size :
      Handler → Bytes → Bytes → Bytes → ℕ → Result ℕ × S → Loader S → Option (ℕ × Loader S)
  unfolding app_load
  with_size h imaps dmaps argv flags (err e, fs) s = close_with 1 h (record s { files = fs })
  with_size h imaps dmaps argv flags (ok size, fs) s = loaded h (
      app_load files places t page hdr stale h size imaps dmaps argv flags
        (record s { files = fs }))

  -- Behind `phfs_open`
  unfoldable pub with_file :
      Bytes → Bytes → Bytes → ℕ → Result Handler × S → Loader S → Option (ℕ × Loader S)
  unfolding with_size
  with_file imaps dmaps argv flags (err e, fs) s = some (1, record s { files = fs })
  with_file imaps dmaps argv flags (ok h, fs) s =
      with_size h imaps dmaps argv flags (places.stat_file h fs) (record s { files = fs })

  -- `cmd_app`; without arguments it prints the programs.
  unfoldable pub cmd_app : List Bytes → Loader S → Option (ℕ × Loader S)
  unfolding read_options prog_name with_file
  cmd_app argv s =
      if length argv == 1
      then some (0, s)
      else if ltb (length argv) 5 || ltb 6 (length argv)
      then some (1, s)
      else elim (read_options (arg argv 2)) [
        | none ↦ some (1, s)
        | some (flags, i) ↦
            if not (i == length argv - 3)
            then some (1, s)
            else with_file (arg argv (i + 1)) (arg argv (i + 2)) (arg argv i) flags
                (files.open_file (arg argv 1) (some (prog_name (arg argv i))) 0 s.files) s
      ]
