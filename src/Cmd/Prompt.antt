-- ===== src/Cmd/Prompt.antt =====
-- cmds/cmd.c: `cmd_prompt`, a byte of the console at a time. `S` is the state of the loader, and
-- `exec` what `cmd_parse` of a line makes of it. What is printed is not modelled.

pub mod Buffers
pub mod Editing
use plo.Common.{
  ℕ, zero, suc, ◌+◌, ◌-◌, ◌%◌, Bool, true, false, ◌&&◌, ◌||◌, not, List, [], ◌∷◌, ◌++◌, ltb, ◌==◌,
  if◌then◌else◌, length, set, get_or, drop, replicate,
}
use plo.Common.CString.{Bytes}
use plo.Cmd.{arg_line_size}

-- `SIZE_HIST`
abbrev pub hist_size : ℕ
hist_size = 8

-- What the last bytes began: nothing, or the escape sequence of an arrow key.
pub data Key : Type 0 where
  plain escaped bracket : Key

-- `cmd_common` and the local variables that a turn of the loop leaves. `over` is set by `#`.
pub record Prompt : Type 0 where
  pub ll : ℕ
  pub cl : ℕ
  pub lines : List Bytes
  pub pos : ℕ
  pub newline : Bool
  pub key : Key
  pub over : Bool

abbrev pub current : Prompt → Bytes
current p = get_or p.lines p.ll []

abbrev pub with_current : Prompt → Bytes → Prompt
with_current p l = record p { lines = set p.lines p.ll l }

-- `hal_strlen`, and the text of a line
unfoldable pub strlen : Bytes → ℕ
strlen [] = 0
strlen (c ∷ cs) = let rest = strlen cs in if c == 0 then 0 else suc rest

unfoldable pub c_string : Bytes → Bytes
c_string [] = []
c_string (c ∷ cs) = let rest = c_string cs in if c == 0 then [] else c ∷ rest

-- `hal_memcpy(to, from, hal_strlen(from) + 1)`
abbrev pub copy_line : Bytes → Bytes → Bytes
copy_line from to = c_string from ++ 0 ∷ drop (suc (strlen from)) to

-- The beginning: the first byte of each line is cleared.
abbrev pub clear_first : List Bytes → List Bytes
clear_first [] = []
clear_first (l ∷ ls) = set l 0 0 ∷ clear_first ls

abbrev pub prompt_start : List Bytes → Prompt
prompt_start lines = record {
  ll = 0;
  cl = 0;
  lines = clear_first lines;
  pos = 0;
  newline = false;
  key = plain;
  over = false;
}

-- The keys up and down.
unfoldable pub key_up : Prompt → Prompt
key_up p =
    let ncl = (p.cl + hist_size - 1) % hist_size in
    let from = get_or p.lines ncl [] in
    if not (ncl == p.ll) && not (get_or from 0 0 == 0)
    then record (with_current p (copy_line from (current p))) { cl = ncl; pos = strlen from }
    else p

unfoldable pub key_down : Prompt → Prompt
key_down p =
    let ncl = (p.cl + 1) % hist_size in
    let from = get_or p.lines ncl [] in
    if p.cl == p.ll
    then p
    else if ncl == p.ll
    then record (with_current p (set (current p) 0 0)) { cl = ncl; pos = 0 }
    else record (with_current p (copy_line from (current p))) { cl = ncl; pos = strlen from }

-- A regular character goes to the end of the line, and a backspace takes the last one off.
unfoldable pub edit : Prompt → ℕ → Prompt
edit p c =
    let p' = record p { newline = false; over = c == b'#' } in
    if c == 8
    then (if ltb 0 p.pos
        then record (with_current p' (set (current p) (p.pos - 1) 0)) { pos = p.pos - 1 }
        else p')
    else if ltb p.pos (arg_line_size - 1)
    then record (with_current p' (set (set (current p) p.pos c) (suc p.pos) 0)) { pos = suc p.pos }
    else p'

abbrev pub plain_key : Prompt → Prompt
plain_key p = record p { key = plain }

module _ {S : Type 0} (exec : Bytes → S → S) where
  -- The end of a line: a line feed right behind a carriage return is skipped.
  unfoldable pub enter : Prompt → ℕ → S → Prompt × S
  enter p c s =
      let p' = record p { newline = p.newline || c == b'\r' } in
      let next = (p.ll + 1) % hist_size in
      if not (c == b'\r') && p.newline
      then (record p { newline = false }, s)
      else if p.pos == 0
      then (p', s)
      else (record p' { ll = next; cl = next; pos = 0 }, exec (c_string (current p)) s)

  -- The character `c`, with the code 127 already read as a backspace.
  unfoldable pub regular : Prompt → ℕ → S → Prompt × S
  regular p c s =
      if c == 0
      then (p, s)
      else if c == b'\r' || c == b'\n'
      then enter p c s
      else if c == b'\t'
      then (p, s)
      else (edit p c, s)

  -- One byte of the console.
  unfoldable pub feed : Prompt → ℕ → S → Prompt × S
  feed p x s = elim p.key [
    | plain ↦
        if x == 27 then (record p { key = escaped }, s) else regular p (if x == 127 then 8 else x) s
    | escaped ↦ (record p { key = if x == 91 then bracket else plain }, s)
    | bracket ↦ (
      if x == b'A'
          then key_up (plain_key p)
          else if x == b'B'
          then key_down (plain_key p)
          else plain_key p,
      s,
    )
  ]

  -- The loop, up to the `#` that ends it or the last of the bytes.
  unfoldable pub prompt_loop : Prompt → Bytes → S → Prompt × S
  prompt_loop p [] s = (p, s)
  prompt_loop p (x ∷ xs) s =
      let rest = prompt_loop (feed p x s).0 xs (feed p x s).1 in if p.over then (p, s) else rest

  -- `cmd_prompt`, with what the lines hold before it
  unfoldable pub cmd_prompt : List Bytes → Bytes → S → Prompt × S
  cmd_prompt lines input s = prompt_loop (prompt_start lines) input s
