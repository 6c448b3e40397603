-- ===== src/Syspage/Progs.antt =====
-- The programs of syspage.c.
use plo.Common.{
  ℕ, ◌+◌, Bool, true, false, not, ◌&&◌, List, [], ◌∷◌, ◌++◌, Option, none, some, ◌==◌,
  if◌then◌else◌, length, bit_and,
}
use plo.Common.CString.{Bytes, str_eq}
use plo.Syspage.State.{MapEnt, Prog, Syspage, Target}
use plo.Syspage.Alloc.{alloc}
use plo.Syspage.Maps.{entry_add}

abbrev pub flag_exec : ℕ
flag_exec = 1

-- `isExec`
abbrev pub is_exec : ℕ → Bool
is_exec flags = not (bit_and flags flag_exec == 0)

-- The text that `syspage_progAdd` writes: an `X` marks an executable program.
abbrev pub stored_argv : Bytes → ℕ → Bytes
stored_argv argv flags = if is_exec flags then b'X' ∷ argv else argv

abbrev pub new_prog : Bytes → ℕ → Prog
new_prog argv flags = record {
  argv = stored_argv argv flags;
  start = none;
  end = none;
  imaps = none;
  dmaps = none;
  imap_sz = none;
  dmap_sz = none;
}

-- `syspage_progAdd`: whether it succeeds; the new program is then the last one.
unfoldable pub prog_add : Target → Bytes → ℕ → Syspage → Option Prog × Syspage
unfolding alloc
prog_add t argv flags s = elim (alloc s t.sizeof_prog) [
  | none ↦ (none, s)
  | some (_, s₁) ↦ elim (alloc s₁ ((if is_exec flags then 1 else 0) + length argv + 1)) [
    | none ↦ (none, s₁)
    | some (_, s₂) ↦
        (some (new_prog argv flags), record s₂ { progs = s₂.progs ++ new_prog argv flags ∷ [] })
  ]
]

-- `iterArgv`: the text behind the mark.
unfoldable pub plain_argv : Bytes → Bytes
plain_argv [] = []
plain_argv (c ∷ cs) = if c == b'X' then cs else c ∷ cs

unfoldable pub has_argv : Bytes → List Prog → Bool
unfolding plain_argv str_eq
has_argv argv [] = false
has_argv argv (p ∷ ps) =
    let rest = has_argv argv ps in if str_eq argv (plain_argv p.argv) then true else rest

-- What a caller assigns to the program that it just added.
unfoldable pub set_last : (Prog → Prog) → List Prog → List Prog
set_last f [] = []
set_last f (p ∷ []) = f p ∷ []
set_last f (p ∷ p' ∷ ps) = p ∷ set_last f (p' ∷ ps)

abbrev pub set_range : MapEnt → Prog → Prog
set_range e p = record p {
  start = some e.start;
  end = some e.end;
  imaps = none;
  dmaps = none;
  imap_sz = some 0;
  dmap_sz = some 0;
}

-- `SIZE_PAGE` of the target stands for `page`.
unfoldable pub prog_allocate_and_add :
    Target → ℕ → Bytes → ℕ → Bytes → ℕ → Bool → Syspage → Option ℕ × Syspage
unfolding has_argv entry_add prog_add set_last
prog_allocate_and_add t page map size argv flags allow_overwrite s =
    if not allow_overwrite && has_argv argv s.progs
    then (none, s)
    else elim (entry_add t (some map) 0xffff_ffff size page s).0 [
      | none ↦ (none, (entry_add t (some map) 0xffff_ffff size page s).1)
      | some e ↦
          let s₁ = (entry_add t (some map) 0xffff_ffff size page s).1 in
          elim (prog_add t argv flags s₁).0 [
            | none ↦ (none, (prog_add t argv flags s₁).1)
            | some _ ↦
                let s₂ = (prog_add t argv flags s₁).1 in
                (some e.start, record s₂ { progs = set_last (set_range e) s₂.progs })
          ]
    ]
