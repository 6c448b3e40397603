-- ===== src/Copy/Command.antt =====
-- cmds/copy.c: the arguments of the command `copy`. `none` is a read through a null pointer.
use plo.Common.{
  ℕ, suc, Bool, true, false, Option, none, some, List, get_elem?, length, ltb, leb, if◌then◌else◌,
}
use plo.Common.CString.{Bytes}
use plo.Common.Result.{Result, ok, err, einval, next, next?}
use plo.Strtoul.{strtoul}
use plo.Phfs.{Handler}
use plo.Phfs.Files.{Files}
use plo.Copy.{cpphfs2phfs}

-- `PHFS_OPEN_RDONLY`, and `PHFS_OPEN_CREATE | PHFS_OPEN_RDWR`
abbrev pub open_flags : Bool → ℕ
open_flags false = 0
open_flags true = 3

-- `CMD_EXIT_SUCCESS`, or `CMD_EXIT_FAILURE` whatever failed.
abbrev pub exit_code : {S : Type 0} → Option (Result ℕ × S) → Option (Result ℕ × S)
exit_code none = none
exit_code (some (ok _, s)) = some (ok 0, s)
exit_code (some (err _, s)) = some (ok 1, s)

-- What `cmd_devParse` stores for its caller.
pub record Place : Type 0 where
  pub handler : Handler
  pub offs : ℕ
  pub size : ℕ
  pub file : Option Bytes
  pub argv_id : ℕ

module _ {S : Type 0} (files : Files S) (w : ℕ) where
  -- A file by its name.
  unfoldable pub parse_file : Bytes → Bytes → Bool → ℕ → S → Option (Result Place × S)
  parse_file alias name is_dst id s =
      next
        (λ h. λ s'.
          some
            (ok record { handler = h; offs = 0; size = 0; file = some name; argv_id = suc id }, s'))
        (files.open_file alias (some name) (open_flags is_dst) s)

  -- A part of a device; `id` is the index of its size.
  unfoldable pub parse_part : Bytes → ℕ → List Bytes → ℕ → S → Option (Result Place × S)
  parse_part alias offs argv id s = elim (get_elem? argv id) [
    | none ↦ none
    | some text ↦
        let (size, rest) = strtoul text 0 in
        if leb 1 (length rest)
        then some (err einval, s)
        else next
            (λ h. λ s'. some (
              ok record { handler = h; offs = offs; size = size; file = none; argv_id = suc id },
              s',
            ))
            (files.open_file alias none 0 s)
  ]

  -- `cmd_devParse`, from the argument with the index `id` on; the pointers are not NULL.
  unfoldable pub dev_parse : List Bytes → ℕ → Bool → S → Option (Result Place × S)
  unfolding parse_file parse_part
  dev_parse argv id is_dst s = elim (get_elem? argv id) [
    | none ↦ some (err einval, s)
    | some alias ↦ elim (get_elem? argv (suc id)) [
      | none ↦ some (err einval, s)
      | some text ↦
          let (offs, rest) = strtoul text 0 in
          if leb 1 (length rest)
          then parse_file alias text is_dst (suc id) s
          else parse_part alias offs argv (suc (suc id)) s
    ]
  ]

  -- Both places are closed, whatever the copying came to, and the alias of the copy is registered.
  unfoldable pub finish_copy : Place → Place → Result ℕ × S → Option (Result ℕ × S)
  finish_copy src dst (r, s) =
      let s' = (files.close_file dst.handler (files.close_file src.handler s).1).1 in
      next
        (λ size. λ s''.
          some (
            files.reg_alias (elim dst.file [ none ↦ src.file | some f ↦ some f ]) dst.offs size
              s''))
        (r, s')

  abbrev finish_copy? : Place → Place → Option (Result ℕ × S) → Option (Result ℕ × S)
  finish_copy? src dst none = none
  finish_copy? src dst (some r) = finish_copy src dst r

  -- The second place; where it is wrong the first one is closed.
  unfoldable pub copy_to : Place → Option (Result Place × S) → Option (Result ℕ × S)
  copy_to src none = none
  copy_to src (some (err e, s)) = some (err e, (files.close_file src.handler s).1)
  copy_to src (some (ok dst, s)) = finish_copy? src dst (
      cpphfs2phfs w (files.read_file src.handler) (files.write_file dst.handler) src.offs dst.offs
        src.size dst.size s)

  -- `cmd_copy`
  unfoldable pub cmd_copy : List Bytes → S → Option (Result ℕ × S)
  cmd_copy argv s = exit_code (
      if ltb (length argv) 5
      then some (err einval, s)
      else next? (λ src. λ s'. copy_to src (dev_parse argv src.argv_id true s'))
          (dev_parse argv 1 false s))
