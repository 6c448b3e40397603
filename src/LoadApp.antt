-- ===== src/LoadApp.antt =====
-- cmds/app.c: the command `app`, which loads a program into a map or leaves it in its device, on a
-- target with 32-bit addresses. `none` is a loop that does not end: `phfs_read` gives no bytes
-- behind the end of a file.
pub mod Interface
pub mod Names
pub mod Registered
pub mod Load
pub mod Command
pub mod Copied
pub mod Device
use plo.Common.{
  ℕ, zero, suc, ◌+◌, ◌-◌, Bool, true, false, not, ◌&&◌, ◌||◌, Option, none, some, List, [], ◌∷◌,
  ◌++◌, length, take, drop, get_or, min, ltb, leb, ◌==◌, if◌then◌else◌, bit_and, bit_or,
}
use plo.Common.Bits.{u32}
use plo.Common.CString.{Bytes}
use plo.Common.Result.{Result, ok, err, next, next?}
use plo.Cmd.Prompt.{c_string}
use plo.Copy.{buffer_size}
use plo.Phfs.{Handler}
use plo.Phfs.Files.{Files}
use plo.Ptable.Bytes.{Memory, write_bytes}
use plo.Syspage.State.{MapEnt, Syspage}
use plo.Syspage.Resolve.{map_name_resolve}

-- What phfs/phfs.h gives besides: `phfs_stat`, `phfs_aliasAddrResolve` and `phfs_map` of a handler.
pub record Places (S : Type 0) : Type 0 where
  pub stat_file : Handler → S → Result ℕ × S
  pub addr_resolve : Handler → S → Result ℕ
  pub map_file : Handler → ℕ → ℕ → ℕ → ℕ → ℕ → ℕ → S → (Result ℕ × Option ℕ) × S

-- The state of the loader: syspage.c, the memory, and the files.
pub record Loader (S : Type 0) : Type 0 where
  pub sys : Syspage
  pub mem : Memory
  pub files : S

-- `mapNames + hal_strlen(mapNames) + 1`
unfoldable pub behind_name : Bytes → Bytes
behind_name [] = []
behind_name (c ∷ cs) = let rest = behind_name cs in if c == 0 then cs else rest

-- `cmd_mapsParse`: each separator becomes a NUL. The number of names, and the text.
unfoldable pub maps_parse : Bytes → ℕ → ℕ × Bytes
maps_parse [] sep = (1, [])
maps_parse (c ∷ cs) sep =
    let rest = maps_parse cs sep in
    if c == sep then (suc rest.0, 0 ∷ rest.1) else (rest.0, c ∷ rest.1)

-- One identifier more, unless there is an error, of which the first is the result.
abbrev pub prepend : Result ℕ → Result (List ℕ) → Result (List ℕ)
prepend (err e) ids = err e
prepend (ok id) (err e) = err e
prepend (ok id) (ok ids) = ok (id ∷ ids)

-- `cmd_mapsAdd2Prog`: the identifiers that it writes.
unfoldable pub maps_add2prog : Syspage → ℕ → Bytes → Result (List ℕ)
unfolding map_name_resolve c_string behind_name
maps_add2prog sys zero names = ok []
maps_add2prog sys (suc nb) names =
    prepend (map_name_resolve sys (c_string names)) (maps_add2prog sys nb (behind_name names))

-- The identifiers that it writes before it returns, also where a name is wrong.
unfoldable pub maps_written : Syspage → ℕ → Bytes → List ℕ
unfolding map_name_resolve c_string behind_name
maps_written sys zero names = []
maps_written sys (suc nb) names = elim (map_name_resolve sys (c_string names)) [
  | err _ ↦ []
  | ok id ↦ id ∷ maps_written sys nb (behind_name names)
]

module _ {S : Type 0} where
  -- What follows a call that changes the state of the files only.
  abbrev pub after_call :
      {A B : Type 0}
      → (A → Loader S → Option (Result B × Loader S))
      → Loader S
      → Result A × S
      → Option (Result B × Loader S)
  after_call f s (err e, fs) = some (err e, record s { files = fs })
  after_call f s (ok a, fs) = f a (record s { files = fs })

module _ {S : Type 0} (files : Files S) where
  -- The loop of `cmd_cp2ent`.
  unfoldable pub cp_loop : ℕ → Handler → ℕ → ℕ → ℕ → Loader S → Option (Result ℕ × Loader S)
  cp_loop zero h start sz offs s = none
  cp_loop (suc fuel) h start sz offs s = elim (ltb offs sz) [
    | false ↦ some (ok 0, s)
    | true ↦
        after_call
          (λ bytes s'.
            cp_loop fuel h start sz (u32 (offs + length bytes))
              (record s' { mem = write_bytes s'.mem (u32 (start + offs)) bytes }))
          s (files.read_file h offs (min buffer_size (sz - offs)) s.files)
  ]

  -- `cmd_cp2ent`: each turn but the last reads a byte at least, or the loop does not end.
  unfoldable pub cp2ent : Handler → MapEnt → Loader S → Option (Result ℕ × Loader S)
  unfolding cp_loop
  cp2ent h e s =
      cp_loop (suc (u32 (e.end + 0x1_0000_0000 - e.start))) h e.start
        (u32 (e.end + 0x1_0000_0000 - e.start)) 0 s
